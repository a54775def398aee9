-- ===== src/Append/Rotate.antt =====
-- The log with the manifest that names its segments: the sealing of the tail and the start of another.
use pqueue.Base.{
  ℕ, ◌+◌, ◌^◌, ◌≤◌, ◌<◌, ◌≡◌, ◌≢◌, refl, sym, ap, ◌∙◌, List, [], ◌∷◌, ◌++◌, some, arith, length,
  All, All-append, append-nil,
}
use pqueue.Bytes.{Bytes, IsU32}
use pqueue.LogFormat.{serialize_segment_header}
use pqueue.FileSystem.{FileSystem, FileSystemLaws}
use pqueue.Manifest.{ManifestRange, ManifestData, manifest_max_ranges}
use pqueue.Manifest.RoundTrip.{IsRange}
use pqueue.Manifest.Slots.{read_manifest, range_generations}
use pqueue.Manifest.Slots.Publish.{CacheAgrees}
use pqueue.Replay.{SegmentRecord}
use pqueue.Replay.Segments.{max_replay_segment_read_bytes}
use pqueue.Replay.Restore.{Segment, segment_bytes, length-header}
use pqueue.Store.{Store}
use pqueue.Append.{Outcome, append_range, next_base}
use pqueue.Append.Live.{file_at, IsOnDisk}
use pqueue.Append.Durable.{IsLive, All-kept}
use pqueue.Append.Ranges.{range_generations-append_range, append_range-IsRange}
use pqueue.Append.Sealed.{replay_of-sealed}
use pqueue.Append.Install.{IsInstalled}

abbrev pub generations_of : List Segment → List ℕ
generations_of [] = []
generations_of (g ∷ gs) = g.generation ∷ generations_of gs

generations_of-append :
    (gs : List Segment) (g : Segment)
    → generations_of (gs ++ (g ∷ [])) ≡ generations_of gs ++ (g.generation ∷ [])
generations_of-append [] g = refl
generations_of-append (x ∷ gs) g = ap (λ t. x.generation ∷ t) (generations_of-append gs g)

next_base-IsU32 : (rs : List SegmentRecord) → IsU32 (next_base rs)
unfolding next_base
next_base-IsU32 [] = omega arith
next_base-IsU32 (r ∷ []) = omega arith
next_base-IsU32 (r ∷ r' ∷ rs) = next_base-IsU32 (r' ∷ rs)

apart_from :
    (next : ℕ) (gs : List Segment)
    → All (λ g. g.generation < next) gs
    → All (λ g. g.generation ≢ next) gs
apart_from next [] hs = tt
apart_from next (g ∷ gs) (h, hs) = (λ e. omega (arith, h, e), apart_from next gs hs)

below_next :
    (n k : ℕ) (gs : List Segment)
    → n < k
    → All (λ g. g.generation < n) gs
    → All (λ g. g.generation < k) gs
below_next n k [] h hs = tt
below_next n k (g ∷ gs) h (l, ls) = (omega (arith, h, l), below_next n k gs h ls)

module _ (fs : FileSystem) (laws : FileSystemLaws fs) where
  -- The manifest that readers see names the sealed segments in order and the tail, and the fields
  -- in memory agree with it.
  pub record IsNamed (m : Store) (s : fs.State) (sealed : List Segment) (active : Segment)
      : Type 0 where
    pub md : ManifestData
    pub seen : read_manifest fs s ≡ some md
    pub cache : CacheAgrees fs laws m s
    pub md_ranges : md.ranges ≡ m.manifest_ranges
    pub md_tail : md.tail_generation ≡ active.generation
    pub names : range_generations m.manifest_ranges ≡ generations_of sealed
    pub generations_are :
        m.active_generations ≡ range_generations m.manifest_ranges ++ (active.generation ∷ [])
    pub are_ranges : All IsRange m.manifest_ranges
    pub few : length m.manifest_ranges ≤ manifest_max_ranges
    pub below : All (λ g. g.generation < m.next_generation) sealed
    pub tail_below : active.generation < m.next_generation
    pub tail_pos : 0 < active.generation

  module _ (max : ℕ) (m : Store) (s : fs.State) (sealed : List Segment) (active : Segment)
      (h : IsLive fs max m s sealed active) (n : IsNamed m s sealed active)
      (epochs : n.md.epoch + 1 < 2 ^ 32) (nexts : m.next_generation + 1 < 2 ^ 32) where
    abbrev pub next_segment : Segment
    next_segment = record {
      generation = m.next_generation;
      start_seq = next_base m.records;
      events = [];
    }

    abbrev pub ranges : List ManifestRange
    ranges = append_range m.manifest_ranges m.active_generation

    pub active_pos : 0 < m.active_generation
    active_pos = omega (arith, h.tail_is, n.tail_pos)

    pub active_small : IsU32 m.active_generation
    active_small = omega (arith, h.tail_is, h.active_stored.holds.generation_small)

    pub next_pos : 0 < m.next_generation
    next_pos = omega (arith, n.tail_below)

    -- What a new tail of any outcome means for the log.
    pub sealed-IsLive :
        (m0 : Store) (r : Outcome fs)
        → m0.records ≡ m.records
        → m0.mounted ≡ m.mounted
        → IsInstalled fs laws ranges m.next_generation (next_base m.records) m0 s r
        → IsLive fs max r.1 r.2 (sealed ++ (active ∷ [])) next_segment
    sealed-IsLive m0 r same same_mounted i =
        let (records, affected) = replay_of-sealed sealed active next_segment refl in
        let small : IsU32 m.next_generation = omega (arith, nexts) in
        let gens =
          All-append (λ g. g.generation < m.next_generation) sealed (active ∷ []) n.below
            (n.tail_below, tt) in
        let apart = apart_from m.next_generation (sealed ++ (active ∷ [])) gens in
        record {
          sealed_stored =
              All-kept fs max s r.2 m.next_generation (sealed ++ (active ∷ [])) small
                (λ g d. i.others g.generation d) apart
                (All-append (IsOnDisk fs max s) sealed (active ∷ []) h.sealed_stored
                  (h.active_stored, tt));
          active_stored = record {
            can_read = i.new_read;
            holds = record {
              stored =
                  i.new_bytes ∙ sym (append-nil _) ∙ sym (append-nil (segment_bytes next_segment));
              fit = tt;
              generation_small = small;
              start_small = next_base-IsU32 m.records;
              readable = header_short (file_at fs r.2 m.next_generation) i.new_bytes;
            };
          };
          apart = apart;
          mounted = i.same_mounted ∙ same_mounted ∙ h.mounted;
          tail_is = i.tail_is;
          bytes_are = i.bytes_are;
          records_are = i.same_records ∙ same ∙ h.records_are ∙ sym records;
          tracked = i.tracked;
          affected_are = i.affected_are ∙ sym affected;
        }
      where
        header_short :
            (bytes : Bytes)
            → bytes ≡ serialize_segment_header m.next_generation (next_base m.records)
            → length bytes ≤ max_replay_segment_read_bytes
        header_short bytes e =
            omega (arith, ap length e, length-header m.next_generation (next_base m.records))

    pub sealed-IsNamed :
        (m0 : Store) (r : Outcome fs)
        → length ranges ≤ manifest_max_ranges
        → IsInstalled fs laws ranges m.next_generation (next_base m.records) m0 s r
        → IsNamed r.1 r.2 (sealed ++ (active ∷ [])) next_segment
    sealed-IsNamed m0 r few i =
        let after : r.1.next_generation ≡ m.next_generation + 1 = omega (arith, i.next_is, nexts) in
        record {
          md = i.md;
          seen = i.seen;
          cache = i.cache;
          md_ranges = i.md_ranges ∙ sym i.ranges_are;
          md_tail = i.md_tail;
          names =
              ap range_generations i.ranges_are
              ∙ range_generations-append_range m.manifest_ranges m.active_generation n.are_ranges
                  active_pos
              ∙ ap (λ t. t ++ (m.active_generation ∷ [])) n.names
              ∙ ap (λ g. generations_of sealed ++ (g ∷ [])) h.tail_is
              ∙ sym (generations_of-append sealed active);
          generations_are =
              i.generations_are
              ∙ ap (λ t. range_generations t ++ (m.next_generation ∷ [])) (sym i.ranges_are);
          are_ranges = rw i.ranges_are (
              append_range-IsRange m.manifest_ranges m.active_generation n.are_ranges active_pos
                active_small);
          few = rw i.ranges_are few;
          below = rw after (
              below_next m.next_generation (m.next_generation + 1) (sealed ++ (active ∷ []))
                (omega arith)
                (All-append (λ g. g.generation < m.next_generation) sealed (active ∷ []) n.below
                  (n.tail_below, tt)));
          tail_below = omega (arith, after);
          tail_pos = next_pos;
        }
