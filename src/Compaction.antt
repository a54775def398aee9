-- ===== src/Compaction.antt =====
-- Which segments are compacted, src/pqueue/append_log_store/compaction.cpp: the sizes of live and
-- dead data per segment, the range that is chosen and the window to which it is narrowed. All of it
-- reads the store's fields in memory only. The comparison of two ratios of `float` is a parameter.
pub mod Plan
pub mod Output
pub mod Splice
pub mod Run
pub mod Packed
pub mod Ranges
pub mod Exchange
pub mod Idle
use pqueue.Base.{
  ℕ, zero, suc, ◌+◌, ◌-◌, ◌*◌, ◌/◌, ◌^◌, Bool, true, false, not, ◌&&◌, ◌||◌, List, [], ◌∷◌, ◌++◌,
  Option, none, some, ltb, leb, ◌==◌, if◌then◌else◌,
}
use pqueue.LogFormat.{segment_header_bytes, enqueue_overhead_bytes, to_u32}
use pqueue.Manifest.{ManifestRange}
use pqueue.Manifest.Slots.{generations_from, range_generations}
use pqueue.Replay.{SegmentRecord}
use pqueue.Store.{Store}
use pqueue.Append.{StoreConfig}

pub record CompactionRange : Type 0 where
  pub start_gen : ℕ
  pub end_gen : ℕ

pub record SegmentStat : Type 0 where
  pub generation : ℕ
  pub total_bytes : ℕ
  pub live_bytes : ℕ

unfoldable pub dead_bytes : SegmentStat → ℕ
dead_bytes s = if ltb s.live_bytes s.total_bytes then s.total_bytes - s.live_bytes else 0

-- `gen >= startGen && gen <= endGen`
abbrev pub within : ℕ → ℕ → ℕ → Bool
within start_gen end_gen gen = leb start_gen gen && leb gen end_gen

-- `sealedSegmentBytes_.find(gen)`
unfoldable pub find_sealed : ℕ → List (ℕ × ℕ) → Option ℕ
find_sealed gen [] = none
find_sealed gen ((g, size) ∷ sizes) = if g == gen then some size else find_sealed gen sizes

abbrev pub size_or_zero : Option ℕ → ℕ
size_or_zero none = 0
size_or_zero (some size) = size

-- `kEnqueueOverheadBytes + sr.payloadBytes`
abbrev pub record_bytes : ℕ → ℕ
record_bytes payload_bytes = to_u32 (enqueue_overhead_bytes + payload_bytes)

-- `liveByGen[gen]`, from `acc` on.
unfoldable pub live_from : ℕ → ℕ → List SegmentRecord → ℕ
live_from acc gen [] = acc
live_from acc gen (r ∷ rs) =
    live_from
      (if r.segment_generation == gen then to_u32 (acc + record_bytes r.payload_bytes) else acc) gen
      rs

unfoldable pub stat_of : Store → ℕ → SegmentStat
unfolding live_from find_sealed
stat_of m gen = record {
  generation = gen;
  total_bytes = size_or_zero (find_sealed gen m.sealed_segment_bytes);
  live_bytes = to_u32 (segment_header_bytes + live_from 0 gen m.records);
}

unfoldable pub stats_of : Store → List ℕ → List SegmentStat
unfolding stat_of
stats_of m [] = []
stats_of m (gen ∷ gens) = stat_of m gen ∷ stats_of m gens

unfoldable pub segment_stats : Store → List SegmentStat
unfolding stats_of range_generations
segment_stats m = stats_of m (range_generations m.manifest_ranges)

-- `total += s.deadBytes()`
unfoldable pub sum_dead : ℕ → List SegmentStat → ℕ
unfolding dead_bytes
sum_dead acc [] = acc
sum_dead acc (s ∷ ss) = sum_dead (to_u32 (acc + dead_bytes s)) ss

unfoldable pub sum_dead_bytes : Store → ℕ
unfolding sum_dead segment_stats
sum_dead_bytes m = sum_dead 0 (segment_stats m)

unfoldable pub has_live : ℕ → ℕ → List SegmentRecord → Bool
has_live start_gen end_gen [] = false
has_live start_gen end_gen (r ∷ rs) =
    within start_gen end_gen r.segment_generation || has_live start_gen end_gen rs

-- The stats of the segments of a range.
unfoldable pub stats_within : ℕ → ℕ → List SegmentStat → List SegmentStat
stats_within start_gen end_gen [] = []
stats_within start_gen end_gen (s ∷ ss) =
    if within start_gen end_gen s.generation
    then s ∷ stats_within start_gen end_gen ss
    else stats_within start_gen end_gen ss

unfoldable pub sum_total : ℕ → List SegmentStat → ℕ
sum_total acc [] = acc
sum_total acc (s ∷ ss) = sum_total (to_u32 (acc + s.total_bytes)) ss

unfoldable pub sum_live : ℕ → List SegmentStat → ℕ
sum_live acc [] = acc
sum_live acc (s ∷ ss) = sum_live (to_u32 (acc + s.live_bytes)) ss

-- `(liveBytes + maxSegmentBytes - 1) / maxSegmentBytes`
unfoldable pub predict_out : ℕ → ℕ → ℕ
predict_out max_segment_bytes live_bytes =
    if live_bytes == 0
    then 0
    else to_u32 (to_u32 (live_bytes + max_segment_bytes) + (2 ^ 32 - 1)) / max_segment_bytes

-- The best candidate so far: a range and its ratio, as numerator and denominator.
abbrev pub Best : Type 0
Best = Option (CompactionRange × ℕ × ℕ)

-- Segments in the order of their generations.
unfoldable pub insert_stat : SegmentStat → List SegmentStat → List SegmentStat
insert_stat s [] = s ∷ []
insert_stat s (t ∷ ts) =
    if ltb s.generation t.generation then s ∷ (t ∷ ts) else t ∷ insert_stat s ts

unfoldable pub sort_stats : List SegmentStat → List SegmentStat
unfolding insert_stat
sort_stats [] = []
sort_stats (s ∷ ss) = insert_stat s (sort_stats ss)

-- `exceeds (a, b) (c, d)` is the comparison `a / b > c / d` of the quotients in `float`.
module _ (exceeds : ℕ × ℕ → ℕ × ℕ → Bool) where
  -- `ratio > bestRatio`, where `bestRatio` starts at -1.
  unfoldable pub improve : CompactionRange → ℕ → ℕ → Best → Best
  improve range dead total none = some (range, dead, total)
  improve range dead total (some (best, d, t)) =
      if exceeds (dead, total) (d, t) then some (range, dead, total) else some (best, d, t)

  -- `none` for `std::nullopt`: a best ratio that is not positive is none.
  unfoldable pub positive : Best → Option CompactionRange
  positive none = none
  positive (some (best, d, t)) = if d == 0 then none else some best

  -- The loop over the ranges, with the statistics and the records.
  unfoldable pub choose_loop :
      List SegmentStat → List SegmentRecord → List ManifestRange → Best → Option CompactionRange
  unfolding has_live stats_within sum_total sum_dead improve positive
  choose_loop stats records [] best = positive best
  choose_loop stats records (r ∷ rs) best =
      let mine = stats_within r.start_gen r.end_gen stats in
      let total = sum_total 0 mine in
      let range : CompactionRange = record { start_gen = r.start_gen; end_gen = r.end_gen } in
      let rest =
        choose_loop stats records rs
          (if total == 0 then best else improve range (sum_dead 0 mine) total best) in
      if has_live r.start_gen r.end_gen records then rest else some range

  unfoldable pub choose_compaction_range : Store → Option CompactionRange
  unfolding choose_loop segment_stats
  choose_compaction_range m = choose_loop (segment_stats m) m.records m.manifest_ranges none

  -- The windows that start at one segment: `live` and `total` are the sums so far.
  unfoldable pub windows_from : StoreConfig → ℕ → ℕ → ℕ → List SegmentStat → Best → Best
  unfolding predict_out improve
  windows_from config first live total [] best = best
  windows_from config first live total (s ∷ ss) best =
      let live' = to_u32 (live + s.live_bytes) in
      let total' = to_u32 (total + s.total_bytes) in
      let rest = windows_from config first live' total' ss (
        if total' == 0
        then improve (record { start_gen = first; end_gen = s.generation }) 0 1 best
        else improve (record { start_gen = first; end_gen = s.generation })
            (to_u32 (total' + 2 ^ 32 - live')) total' best) in
      if ltb config.max_output_segments (predict_out config.max_segment_bytes live')
      then best
      else rest

  unfoldable pub all_windows : StoreConfig → List SegmentStat → Best → Best
  unfolding windows_from
  all_windows config [] best = best
  all_windows config (s ∷ ss) best =
      all_windows config ss (windows_from config s.generation 0 0 (s ∷ ss) best)

  abbrev range_or : CompactionRange → Best → CompactionRange
  range_or range none = range
  range_or range (some (best, d, t)) = best

  unfoldable pub narrow_sorted : StoreConfig → CompactionRange → List SegmentStat → CompactionRange
  unfolding predict_out sum_live all_windows
  narrow_sorted config range [] = range
  narrow_sorted config range (s ∷ ss) =
      let first : CompactionRange = record { start_gen = s.generation; end_gen = s.generation } in
      let fits : ℕ → Bool =
        λ live. leb (predict_out config.max_segment_bytes live) config.max_output_segments in
      if fits (sum_live 0 (s ∷ ss))
      then range
      else if not (fits s.live_bytes)
      then first
      else range_or first (all_windows config (s ∷ ss) none)

  unfoldable pub narrow_range : StoreConfig → CompactionRange → Store → CompactionRange
  unfolding narrow_sorted sort_stats stats_within segment_stats
  narrow_range config range m =
      narrow_sorted config range
        (sort_stats (stats_within range.start_gen range.end_gen (segment_stats m)))
