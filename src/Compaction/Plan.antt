-- ===== src/Compaction/Plan.antt =====
-- The decisions of compactRange before it touches a file, src/pqueue/append_log_store/compaction.cpp:
-- the parent range, the limit on the number of ranges, whether the tail is sealed first, and the
-- comparison of the predicted output with the input.
use pqueue.Base.{
  ℕ, suc, ◌+◌, ◌-◌, ◌*◌, ◌^◌, Bool, true, false, not, ◌&&◌, ◌||◌, List, [], ◌∷◌, Option, none, some,
  ltb, leb, ◌==◌, if◌then◌else◌, ◌>>=◌, length, get_elem?,
}
use pqueue.LogFormat.{segment_header_bytes, to_u32}
use pqueue.Manifest.{ManifestRange, manifest_max_ranges}
use pqueue.Manifest.Slots.{generations_from}
use pqueue.Replay.{SegmentRecord}
use pqueue.Store.{Store}
use pqueue.Append.{StoreConfig}
use pqueue.Compaction.{CompactionRange, within, find_sealed, size_or_zero, record_bytes, has_live}

-- The index of the range that holds `[start_gen, end_gen]`, or the number of ranges.
unfoldable pub find_index : ℕ → ℕ → ℕ → List ManifestRange → ℕ
find_index i start_gen end_gen [] = i
find_index i start_gen end_gen (r ∷ rs) =
    if leb r.start_gen start_gen && leb end_gen r.end_gen
    then i
    else find_index (suc i) start_gen end_gen rs

unfoldable pub find_parent_range_idx : ℕ → ℕ → Store → ℕ
unfolding find_index
find_parent_range_idx start_gen end_gen m =
    if ltb end_gen start_gen
    then length m.manifest_ranges
    else find_index 0 start_gen end_gen m.manifest_ranges

abbrev pub is_nil {ℓ} : {A : Type ℓ} → List A → Bool
is_nil [] = true
is_nil (x ∷ xs) = false

-- `manifestRanges_.back()`
unfoldable pub last_range : List ManifestRange → Option ManifestRange
last_range [] = none
last_range (r ∷ []) = some r
last_range (r ∷ r' ∷ rs) = last_range (r' ∷ rs)

-- A range that may be replaced by its parent, with what is left of the parent on each side.
pub record Input : Type 0 where
  pub range : CompactionRange
  pub has_left : Bool
  pub has_right : Bool

abbrev pub whole : ManifestRange → Input
whole parent = record {
  range = record { start_gen = parent.start_gen; end_gen = parent.end_gen };
  has_left = false;
  has_right = false;
}

abbrev pub part_of : CompactionRange → ManifestRange → Input
part_of range parent = record {
  range = range;
  has_left = ltb parent.start_gen range.start_gen;
  has_right = ltb range.end_gen parent.end_gen;
}

-- How many ranges the split adds.
unfoldable pub gate_delta : Bool → Bool → Bool → ℕ
gate_delta true true true = 2
gate_delta true true false = 1
gate_delta true false true = 1
gate_delta true false false = 0
gate_delta false true true = 1
gate_delta false true false = 0
gate_delta false false true = 0
gate_delta false false false = 0

-- `none` is a no-op; `fallback` is `AllowFullRangeFallback::yes`.
unfoldable pub gate : Bool → Store → ManifestRange → CompactionRange → Option Input
unfolding gate_delta has_live
gate fallback m parent range =
    let input = part_of range parent in
    let delta =
      gate_delta (has_live range.start_gen range.end_gen m.records) input.has_left
        input.has_right in
    if ltb manifest_max_ranges (length m.manifest_ranges + delta)
    then if fallback then some (whole parent) else none
    else some input

unfoldable pub all_within : ℕ → ℕ → List ℕ → Bool
all_within low high [] = true
all_within low high (g ∷ gs) = within low high g && all_within low high gs

abbrev reaches : ℕ → Option ManifestRange → Bool
reaches end_gen none = false
reaches end_gen (some last) = end_gen == last.end_gen

abbrev joins : ℕ → Option ManifestRange → Bool
joins gen none = false
joins gen (some last) = to_u32 (last.end_gen + 1) == gen

-- `wouldRotate`: the input ends with the last range, the tail has events and follows it, and all
-- that the tail's events refer to is compacted with it.
unfoldable pub would_rotate : Store → CompactionRange → Bool
unfolding last_range all_within
would_rotate m input =
    let last = last_range m.manifest_ranges in
    reaches input.end_gen last
    && (ltb segment_header_bytes m.active_segment_bytes && joins m.active_generation last)
    && (m.tail_dependencies_tracked
        && all_within input.start_gen m.active_generation m.tail_affected)

abbrev pub hypo_end : Store → Bool → CompactionRange → ℕ
hypo_end m rotate input = if rotate then m.active_generation else input.end_gen

-- The second gate: a rotation splits off what is left of the input.
unfoldable pub rotation_gate : Bool → Store → ManifestRange → Bool → Input → Option Input
unfolding has_live
rotation_gate fallback m parent rotate input =
    if rotate
      && (has_live input.range.start_gen (hypo_end m rotate input.range) m.records
          && input.has_left)
      && ltb manifest_max_ranges (length m.manifest_ranges + 1)
    then if fallback then some (whole parent) else none
    else some input

-- `hypoPayloadBytes`
unfoldable pub live_payloads : ℕ → ℕ → List SegmentRecord → List ℕ
live_payloads start_gen end_gen [] = []
live_payloads start_gen end_gen (r ∷ rs) =
    if within start_gen end_gen r.segment_generation
    then r.payload_bytes ∷ live_payloads start_gen end_gen rs
    else live_payloads start_gen end_gen rs

-- The segments that the output takes: `n` so far, the last of `seg_bytes` bytes.
unfoldable pub count_segments : ℕ → ℕ → ℕ → List ℕ → ℕ
count_segments max_segment_bytes n seg_bytes [] = n
count_segments max_segment_bytes n seg_bytes (pay ∷ pays) =
    let full = ltb max_segment_bytes (to_u32 (seg_bytes + record_bytes pay)) in
    count_segments max_segment_bytes (if full then suc n else n)
      (to_u32 ((if full then segment_header_bytes else seg_bytes) + record_bytes pay)) pays

unfoldable pub sum_records : ℕ → List ℕ → ℕ
sum_records acc [] = acc
sum_records acc (pay ∷ pays) = sum_records (to_u32 (acc + record_bytes pay)) pays

-- The bytes of the input's files.
unfoldable pub input_bytes : ℕ → Store → List ℕ → ℕ
unfolding find_sealed
input_bytes acc m [] = acc
input_bytes acc m (gen ∷ gens) =
    let size =
      if gen == m.active_generation
      then m.active_segment_bytes
      else size_or_zero (find_sealed gen m.sealed_segment_bytes) in
    input_bytes (to_u32 (acc + size)) m gens

-- The generations of `[start_gen, end_gen]`, for an end below 2^32 - 1.
abbrev pub range_span : ℕ → ℕ → List ℕ
range_span start_gen end_gen = generations_from start_gen (end_gen + 1 - start_gen)

-- Whether the preflight goes on: the output takes fewer segments, or as many and fewer bytes.
unfoldable pub worthwhile : StoreConfig → ℕ → ℕ → List ℕ → Store → Bool
unfolding count_segments sum_records input_bytes
worthwhile config start_gen end_gen pays m =
    let out = count_segments config.max_segment_bytes 1 segment_header_bytes pays in
    let ins = to_u32 (end_gen + 1 + 2 ^ 32 - start_gen) in
    let live = sum_records (to_u32 (out * segment_header_bytes)) pays in
    let has_dead = ltb live (input_bytes 0 m (range_span start_gen end_gen)) in
    is_nil pays || (not (ltb ins out) && not (out == ins && not has_dead))

-- The input, and whether the tail is sealed first.
pub record Plan : Type 0 where
  pub input : CompactionRange
  pub rotate : Bool

unfoldable pub preflight : StoreConfig → Bool → CompactionRange → Store → Option Plan
unfolding worthwhile live_payloads
preflight config rotate input m =
    let last = hypo_end m rotate input in
    let pays = live_payloads input.start_gen last m.records in
    if worthwhile config input.start_gen last pays m
    then some (record { input = input; rotate = rotate && not (is_nil pays) })
    else none

unfoldable pub plan_compaction : StoreConfig → Bool → CompactionRange → Store → Option Plan
unfolding gate would_rotate rotation_gate preflight find_parent_range_idx
plan_compaction config fallback range m = do
  parent ← get_elem? m.manifest_ranges (find_parent_range_idx range.start_gen range.end_gen m)
  first ← gate fallback m parent range
  let rotate = would_rotate m first.range
  second ← rotation_gate fallback m parent rotate first
  preflight config rotate second.range m
