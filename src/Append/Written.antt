-- ===== src/Append/Written.antt =====
-- What a new segment's file and a published manifest leave, if the writes succeed: the file system
-- behind one write each, and the fields in memory.
use pqueue.Base.{
  ℕ, ◌+◌, ◌≡◌, ◌≢◌, refl, sym, ap, ◌∙◌, inl, inr, true, some, arith, length, get_or, Bool-cases,
  Option-cases, true≢false, [], ◌∷◌, ◌++◌, ◌==◌, if◌then◌else◌,
}
use pqueue.Bytes.{Bytes}
use pqueue.LogFormat.{to_u32}
use pqueue.Status.{Status, is_ok}
use pqueue.FileSystem.{FileSystem, FileSystemLaws, Name}
use pqueue.Manifest.{ManifestData, serialise_manifest}
use pqueue.Manifest.Slots.{
  slot_name, apply_manifest_to_ram, choose_target, publish_manifest, publish_to, finish_publish,
  remember_slot, try_read, read_manifest, range_generations,
}
use pqueue.Manifest.Slots.Publish.{CacheAgrees, choose_target-Inactive_of, read_manifest-election}
use pqueue.Store.{Store, Slot, slot_a, slot_b}
use pqueue.Store.Names.{segment_name}
use pqueue.Store.Tracked.{may_overwrite, SegmentWriteDisposition, write_segment_file_tracked}

-- The fields that neither operation touches.
pub record SameLog (m m' : Store) : Type 0 where
  pub same_mounted : m'.mounted ≡ m.mounted
  pub same_records : m'.records ≡ m.records
  pub same_tail : m'.active_generation ≡ m.active_generation
  pub same_bytes : m'.active_segment_bytes ≡ m.active_segment_bytes
  pub same_sequence : m'.next_sequence ≡ m.next_sequence

letters : ◌≢◌ {A = ℕ} 109 115
letters e = omega arith

-- The name of a slot is no segment's.
pub slot_name-segment_name : (slot : Slot) (gen : ℕ) → segment_name gen ≢ slot_name slot
unfolding segment_name
slot_name-segment_name slot_a gen e = letters (sym (ap (λ t. get_or t 0 0) e))
slot_name-segment_name slot_b gen e = letters (sym (ap (λ t. get_or t 0 0) e))

module _ (fs : FileSystem) where
  pub write_segment_file_tracked-ok :
      (name : Name) (bytes : Bytes) (d : SegmentWriteDisposition) (m : Store) (s : fs.State)
      → let r = write_segment_file_tracked fs name bytes d m s in
        is_ok r.0 ≡ true
        → (is_ok (fs.write_file name bytes s).0 ≡ true)
          × (r.2 ≡ (fs.write_file name bytes s).1)
          × SameLog m r.1
          × (r.1.manifest_ranges ≡ m.manifest_ranges)
          × (r.1.next_generation ≡ m.next_generation)
          × (r.1.cached_written_slot ≡ m.cached_written_slot)
          × (r.1.cached_written_epoch ≡ m.cached_written_epoch)
  unfolding write_segment_file_tracked
  write_segment_file_tracked-ok name bytes d m s ok =
      elim (Bool-cases (is_ok (fs.write_file name bytes s).0)) [
        | inl w ↦ rw w (
          refl,
          refl,
          record {
            same_mounted = refl;
            same_records = refl;
            same_tail = refl;
            same_bytes = refl;
            same_sequence = refl;
          },
          refl,
          refl,
          refl,
          refl,
        )
        | inr w ↦ absurd (true≢false (sym (rw w at ok) ∙ w))
      ]

  -- The fields and the file system behind a publish.
  pub record IsPublished (manifest : ManifestData) (m : Store) (s : fs.State)
      (r : Status × Store × fs.State) : Type 0 where
    pub slot : Slot
    pub epoch : ℕ
    pub bytes : Bytes
    pub target :
        choose_target fs m.cached_written_slot m.cached_written_epoch s ≡ some (slot, epoch)
    pub state : r.2 ≡ (fs.write_file (slot_name slot) bytes s).1
    pub same : SameLog m r.1
    pub ranges : r.1.manifest_ranges ≡ manifest.ranges
    pub next : r.1.next_generation ≡ manifest.next_generation
    pub generations :
        r.1.active_generations
        ≡ range_generations manifest.ranges
          ++ (if manifest.tail_generation == 0 then [] else manifest.tail_generation ∷ [])

  remember_slot-same :
      (slot : Slot) (epoch size : ℕ) (m : Store)
      → let m' = remember_slot slot epoch size m in
        SameLog m m'
        × (m'.manifest_ranges ≡ m.manifest_ranges)
        × (m'.next_generation ≡ m.next_generation)
        × (m'.active_generations ≡ m.active_generations)
  unfolding remember_slot
  remember_slot-same slot_a epoch size m = (
    record {
      same_mounted = refl;
      same_records = refl;
      same_tail = refl;
      same_bytes = refl;
      same_sequence = refl;
    },
    refl,
    refl,
    refl,
  )
  remember_slot-same slot_b epoch size m = (
    record {
      same_mounted = refl;
      same_records = refl;
      same_tail = refl;
      same_bytes = refl;
      same_sequence = refl;
    },
    refl,
    refl,
    refl,
  )

  finish_publish-IsPublished :
      (manifest : ManifestData) (slot : Slot) (epoch size : ℕ) (m : Store) (s : fs.State)
      (r : Status × Store × fs.State)
      → choose_target fs m.cached_written_slot m.cached_written_epoch s ≡ some (slot, epoch)
      → (let tracked =
            write_segment_file_tracked fs
              (slot_name slot)
              (serialise_manifest (record manifest { epoch = to_u32 (epoch + 1) }))
              may_overwrite
              m
              s in
          r ≡ finish_publish fs slot (record manifest { epoch = to_u32 (epoch + 1) }) size tracked)
      → is_ok r.0 ≡ true
      → IsPublished manifest m s r
  unfolding finish_publish apply_manifest_to_ram
  finish_publish-IsPublished manifest slot epoch size m s r target is ok =
      let written = serialise_manifest (record manifest { epoch = to_u32 (epoch + 1) }) in
      let tracked = write_segment_file_tracked fs (slot_name slot) written may_overwrite m s in
      elim (Bool-cases (is_ok tracked.0)) [
        | inl w ↦
            let (wrote, state, same, ranges, next, cached, epochs) =
              write_segment_file_tracked-ok (slot_name slot) written may_overwrite m s w in
            let q =
              remember_slot-same slot (to_u32 (epoch + 1)) size (
                apply_manifest_to_ram (record manifest { epoch = to_u32 (epoch + 1) }) tracked.1) in
            let done = rw w at is in
            record {
              slot = slot;
              epoch = epoch;
              bytes = written;
              target = target;
              state = ap (λ x. x.2) done ∙ state;
              same = record {
                same_mounted = ap (λ x. x.1.mounted) done ∙ q.0.same_mounted ∙ same.same_mounted;
                same_records = ap (λ x. x.1.records) done ∙ q.0.same_records ∙ same.same_records;
                same_tail = ap (λ x. x.1.active_generation) done ∙ q.0.same_tail ∙ same.same_tail;
                same_bytes =
                    ap (λ x. x.1.active_segment_bytes) done ∙ q.0.same_bytes ∙ same.same_bytes;
                same_sequence =
                    ap (λ x. x.1.next_sequence) done ∙ q.0.same_sequence ∙ same.same_sequence;
              };
              ranges = ap (λ x. x.1.manifest_ranges) done ∙ q.1;
              next = ap (λ x. x.1.next_generation) done ∙ q.2;
              generations = ap (λ x. x.1.active_generations) done ∙ q.3;
            }
        | inr w ↦ absurd (true≢false (sym ok ∙ ap (λ x. is_ok x.0) (rw w at is) ∙ w))
      ]

  pub publish_manifest-IsPublished :
      (manifest : ManifestData) (m : Store) (s : fs.State)
      → is_ok (publish_manifest fs manifest m s).0 ≡ true
      → IsPublished manifest m s (publish_manifest fs manifest m s)
  unfolding publish_manifest publish_to
  publish_manifest-IsPublished manifest m s ok =
      elim (Option-cases (choose_target fs m.cached_written_slot m.cached_written_epoch s)) [
        | inl e ↦ absurd (true≢false (sym (rw e at ok)))
        | inr (target, e) ↦
            let to_write = record manifest { epoch = to_u32 (target.1 + 1) } in
            finish_publish-IsPublished manifest target.0 target.1
              (to_u32 (length (serialise_manifest to_write))) m s (publish_manifest fs manifest m s)
              e (rw e refl) ok
      ]

  module _ (laws : FileSystemLaws fs) where
    -- The epoch behind which a manifest is published is that of the manifest that readers see.
    pub target-epoch :
        (m : Store) (s : fs.State) (slot : Slot) (epoch : ℕ) (md : ManifestData)
        → CacheAgrees fs laws m s
        → choose_target fs m.cached_written_slot m.cached_written_epoch s ≡ some (slot, epoch)
        → read_manifest fs s ≡ some md
        → md.epoch ≡ epoch
    target-epoch m s slot epoch md agrees target seen =
        let inactive =
          choose_target-Inactive_of fs laws m.cached_written_slot m.cached_written_epoch s slot
            epoch agrees target in
        inactive.winning md
          (sym inactive.loses ∙ sym (read_manifest-election fs laws slot s) ∙ seen)

    -- A new segment's file leaves the slots alone.
    pub CacheAgrees-kept :
        (m m' : Store) (s t : fs.State)
        → ((slot : Slot) → fs.read_file (slot_name slot) t ≡ fs.read_file (slot_name slot) s)
        → m'.cached_written_slot ≡ m.cached_written_slot
        → m'.cached_written_epoch ≡ m.cached_written_epoch
        → CacheAgrees fs laws m s
        → CacheAgrees fs laws m' t × (read_manifest fs t ≡ read_manifest fs s)
    unfolding read_manifest try_read
    CacheAgrees-kept m m' s t kept cached epochs agrees = (
      λ slot e.
          let (md, mine, at, seen) = agrees slot (sym cached ∙ e) in
          (md, rw (kept slot) mine, at ∙ sym epochs, rw (kept slot_a, kept slot_b) seen),
      rw (kept slot_a, kept slot_b) refl,
    )
