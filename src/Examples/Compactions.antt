-- ===== src/Examples/Compactions.antt =====
-- Compactions of small inputs: records are packed, ranges are exchanged, an idle compaction runs on a
-- mounted store.
use pqueue.Base.{ℕ, ◌+◌, ◌≤◌, ◌<◌, ◌≡◌, refl, ◌↔◌, true, List, [], ◌∷◌, ◌++◌, arith, length, All}
use pqueue.Manifest.{ManifestRange}
use pqueue.Manifest.RoundTrip.{IsRange}
use pqueue.Manifest.Slots.{range_generations}
use pqueue.Compaction.{CompactionRange}
use pqueue.Compaction.Plan.{part_of}
use pqueue.Compaction.Splice.{drop_input, replace_input}
use pqueue.Compaction.Output.{LiveRecord, pack_output}
use pqueue.Compaction.Packed.{
  packed_records, packed_records-pack_output, FitsSegment, Bounded, pack_output-Bounded,
}
use pqueue.Compaction.Ranges.{span}
use pqueue.Compaction.Exchange.{replace_input-exchanges}
use pqueue.Compaction.Run.{compact_idle}
use pqueue.Compaction.Idle.{compact_idle-more_work}
use pqueue.Examples.Appends.{fs, ratios, config, start, disk, one}

abbrev two_records : List LiveRecord
two_records =
    record { sequence = 4; payload = 7 ∷ 8 ∷ [] } ∷ record { sequence = 5; payload = 9 ∷ [] } ∷ []

two_records-FitsSegment : All (FitsSegment 50) two_records
two_records-FitsSegment = ((omega arith, omega arith), ((omega arith, omega arith), tt))

two_segments : length (pack_output 50 7 two_records) ≡ 2
unfolding pack_output
two_segments = refl

packed_records-pack_output_example : packed_records (pack_output 50 7 two_records) ≡ two_records
packed_records-pack_output_example = packed_records-pack_output 50 7 two_records

pack_output-Bounded_example : All (Bounded 50 (omega arith)) (pack_output 50 7 two_records)
pack_output-Bounded_example =
    pack_output-Bounded 50 (omega arith) 7 two_records (omega arith) two_records-FitsSegment

abbrev ranges : List ManifestRange
ranges = record { start_gen = 2; end_gen = 6 } ∷ record { start_gen = 8; end_gen = 8 } ∷ []

abbrev parent : ManifestRange
parent = record { start_gen = 2; end_gen = 6 }

abbrev middle : CompactionRange
middle = record { start_gen = 3; end_gen = 4 }

abbrev output : ManifestRange
output = record { start_gen = 9; end_gen = 9 }

ranges-IsRange : All IsRange ranges
ranges-IsRange = (
  record { start_pos = omega arith; ordered = omega arith; end_small = omega arith },
  (record { start_pos = omega arith; ordered = omega arith; end_small = omega arith }, tt),
)

replace_input-exchanges_example :
    (before : List ℕ) × (behind : List ℕ) × (range_generations ranges
      ≡ before ++ (span 3 4 ++ behind))
    × (range_generations (drop_input 0 parent (part_of middle parent) ranges) ≡ before ++ behind)
    × (range_generations (replace_input 0 parent (part_of middle parent) output ranges)
        ≡ before ++ (span 9 9 ++ behind))
replace_input-exchanges_example =
    replace_input-exchanges 0 parent middle ranges refl ranges-IsRange (omega arith) (omega arith)
      (omega arith) output
      (record { start_pos = omega arith; ordered = omega arith; end_small = omega arith })

compact_idle-more_work_example :
    let r = (compact_idle fs ratios config 2 (start one) (disk one)).0 in
    ((r.more_work_likely ≡ true) ↔ ((0 < 2) × (r.loop.compactions ≡ 2)))
    × (r.loop.compactions ≤ r.loop.steps_run)
    × (r.loop.steps_run ≤ r.loop.compactions + 1)
    × (r.loop.steps_run ≤ 2)
compact_idle-more_work_example = compact_idle-more_work fs ratios config 2 (start one) (disk one)
