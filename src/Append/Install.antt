-- ===== src/Append/Install.antt =====
-- A new tail: its file, the manifest that names it, and the files of the other segments.
use pqueue.Base.{
  ℕ, ◌+◌, ◌^◌, ◌≤◌, ◌<◌, ◌≡◌, ◌≢◌, refl, sym, ap, ◌∙◌, inl, true, false, List, [], ◌∷◌, ◌++◌, ◌==◌,
  some, arith, length, All,
}
use pqueue.LogFormat.{to_u32, serialize_segment_header}
use pqueue.Status.{success, is_ok}
use pqueue.FileSystem.{FileSystem, FileSystemLaws}
use pqueue.Manifest.{ManifestRange, ManifestData, manifest_max_ranges}
use pqueue.Manifest.RoundTrip.{IsManifest, IsRange}
use pqueue.Manifest.Slots.{slot_name, publish_manifest, read_manifest, range_generations}
use pqueue.Manifest.Slots.Publish.{CacheAgrees, numbered, publish_manifest-visible}
use pqueue.Store.{Store, Slot}
use pqueue.Store.Names.{segment_name}
use pqueue.Store.Tracked.{must_be_new}
use pqueue.Append.{Outcome, and_then, create_segment, install_tail, start_tail}
use pqueue.Append.Live.{file_at}
use pqueue.Append.Durable.{and_then-ok}
use pqueue.Append.Written.{
  SameLog, slot_name-segment_name, write_segment_file_tracked-ok, publish_manifest-IsPublished,
  target-epoch, CacheAgrees-kept,
}

-- The manifest that names the new tail.
abbrev pub tail_manifest : List ManifestRange → ℕ → ManifestData
tail_manifest ranges new_gen = record {
  epoch = 0;
  next_generation = to_u32 (new_gen + 1);
  ranges = ranges;
  tail_generation = new_gen;
}

module _ (fs : FileSystem) (laws : FileSystemLaws fs) where
  pub record IsInstalled (ranges : List ManifestRange) (new_gen base : ℕ) (m : Store) (s : fs.State)
      (r : Outcome fs) : Type 0 where
    pub others :
        (gen : ℕ)
        → segment_name gen ≢ segment_name new_gen
        → fs.read_file (segment_name gen) r.2 ≡ fs.read_file (segment_name gen) s
    pub new_read : is_ok (fs.read_file (segment_name new_gen) r.2).0 ≡ true
    pub new_bytes : file_at fs r.2 new_gen ≡ serialize_segment_header new_gen base
    pub same_mounted : r.1.mounted ≡ m.mounted
    pub same_records : r.1.records ≡ m.records
    pub same_sequence : r.1.next_sequence ≡ m.next_sequence
    pub generations_are : r.1.active_generations ≡ range_generations ranges ++ (new_gen ∷ [])
    pub tail_is : r.1.active_generation ≡ new_gen
    pub bytes_are : r.1.active_segment_bytes ≡ 20
    pub tracked : r.1.tail_dependencies_tracked ≡ true
    pub affected_are : r.1.tail_affected ≡ []
    pub ranges_are : r.1.manifest_ranges ≡ ranges
    pub next_is : r.1.next_generation ≡ to_u32 (new_gen + 1)
    pub md : ManifestData
    pub seen : read_manifest fs r.2 ≡ some md
    pub md_ranges : md.ranges ≡ ranges
    pub md_tail : md.tail_generation ≡ new_gen
    pub cache : CacheAgrees fs laws r.1 r.2

  module _ (ranges : List ManifestRange) (new_gen base : ℕ) (m : Store) (s : fs.State)
      (old : ManifestData) (agrees : CacheAgrees fs laws m s) (seen : read_manifest fs s ≡ some old)
      (epochs : old.epoch + 1 < 2 ^ 32) (few : length ranges ≤ manifest_max_ranges)
      (are : All IsRange ranges) (pos : 0 < new_gen) (small : new_gen + 1 < 2 ^ 32) where
    abbrev created : Outcome fs
    created = create_segment fs new_gen base m s

    abbrev published : Outcome fs
    published = publish_manifest fs (tail_manifest ranges new_gen) created.1 created.2

    -- Behind the file of the new segment: the slots and the cache are as they were.
    after_created :
        is_ok created.0 ≡ true
        → (created.2
            ≡ (fs.write_file (segment_name new_gen) (serialize_segment_header new_gen base) s).1)
          × (is_ok
                (fs.write_file (segment_name new_gen) (serialize_segment_header new_gen base) s).0
              ≡ true)
          × SameLog m created.1
          × CacheAgrees fs laws created.1 created.2
          × (read_manifest fs created.2 ≡ some old)
    unfolding create_segment
    after_created ok =
        let header = serialize_segment_header new_gen base in
        let (wrote, state, same, sr, sn, cached, cached_epoch) =
          write_segment_file_tracked-ok fs (segment_name new_gen) header must_be_new m s ok in
        let kept : (slot : Slot)
            → fs.read_file (slot_name slot) created.2 ≡ fs.read_file (slot_name slot) s =
          λ slot. rw state (
            laws.read_other (segment_name new_gen) (slot_name slot) header s
              (λ e. slot_name-segment_name slot new_gen (sym e))) in
        let (cache, manifest) =
          CacheAgrees-kept fs laws m created.1 s created.2 kept cached cached_epoch agrees in
        (state, wrote, same, cache, manifest ∙ seen)

    new_tail :
        is_ok created.0 ≡ true
        → is_ok published.0 ≡ true
        → IsInstalled ranges new_gen base m s (success, start_tail new_gen published.1, published.2)
    unfolding start_tail
    new_tail ok ok' =
        let header = serialize_segment_header new_gen base in
        let (state, wrote, same, cache, sees) = after_created ok in
        let p =
          publish_manifest-IsPublished fs (tail_manifest ranges new_gen) created.1 created.2 ok' in
        let epoch : old.epoch ≡ p.epoch =
          target-epoch fs laws created.1 created.2 p.slot p.epoch old cache p.target sees in
        let is_manifest : IsManifest (numbered (tail_manifest ranges new_gen) p.epoch) = record {
          epoch_small = omega (arith, epochs, epoch);
          next_small = omega (arith, small);
          few = few;
          are_ranges = are;
          tail_small = omega (arith, small);
          has_tail = inl (λ e. omega (arith, e, pos));
        } in
        let (visible, cached) =
          publish_manifest-visible fs laws (tail_manifest ranges new_gen) created.1 created.2 p.slot
            p.epoch cache p.target is_manifest ok' in
        let kept : (gen : ℕ)
            → fs.read_file (segment_name gen) published.2
              ≡ fs.read_file (segment_name gen) created.2 =
          λ gen. rw p.state (
            laws.read_other (slot_name p.slot) (segment_name gen) p.bytes created.2
              (slot_name-segment_name p.slot gen)) in
        let not_zero : (new_gen == 0) ≡ false = ground (arith, pos) in
        let (readable, bytes) = laws.read_written (segment_name new_gen) header s wrote in
        record {
          others = λ gen d.
              kept gen
              ∙ rw state (laws.read_other (segment_name new_gen) (segment_name gen) header s d);
          new_read = ap (λ r. is_ok r.0) (kept new_gen) ∙ rw state readable;
          new_bytes = ap (λ r. r.1) (kept new_gen) ∙ rw state bytes;
          same_mounted = p.same.same_mounted ∙ same.same_mounted;
          same_records = p.same.same_records ∙ same.same_records;
          same_sequence = p.same.same_sequence ∙ same.same_sequence;
          generations_are = rw not_zero at p.generations;
          tail_is = refl;
          bytes_are = refl;
          tracked = refl;
          affected_are = refl;
          ranges_are = p.ranges;
          next_is = p.next;
          md = numbered (tail_manifest ranges new_gen) p.epoch;
          seen = visible;
          md_ranges = refl;
          md_tail = refl;
          cache = cached;
        }

    -- A new tail that is reported as installed is.
    pub install_tail-IsInstalled :
        is_ok (install_tail fs ranges new_gen base m s).0 ≡ true
        → IsInstalled ranges new_gen base m s (install_tail fs ranges new_gen base m s)
    unfolding install_tail
    install_tail-IsInstalled ok =
        let (ok1, is1) =
          and_then-ok fs created
            (λ m1 s1.
              and_then fs (publish_manifest fs (tail_manifest ranges new_gen) m1 s1)
                (λ m2 s2. (success, start_tail new_gen m2, s2)))
            ok in
        let (ok2, is2) =
          and_then-ok fs published (λ m2 s2. (success, start_tail new_gen m2, s2))
            (ap (λ r. is_ok r.0) (sym is1) ∙ ok) in
        rw (is1 ∙ is2) (new_tail ok1 ok2)
