-- ===== src/Compaction/Run.antt =====
-- A compaction and the loops over compactions, src/pqueue/append_log_store/compaction.cpp:
-- compactRange, compactOneSegment, reclaimDeadFrontSegment, compactIdle and
-- cleanupOneDanglingSegment. `exceeds` compares two ratios, as in `Compaction`.
use pqueue.Base.{
  ℕ, zero, suc, ◌+◌, ◌-◌, ◌^◌, Bool, true, false, not, ◌&&◌, List, [], ◌∷◌, Option, none, some, ltb,
  ◌==◌, if◌then◌else◌, length, get_elem?,
}
use pqueue.LogFormat.{to_u32}
use pqueue.Status.{Status, success, no_op_status, is_ok, is_no_op}
use pqueue.FileSystem.{FileSystem, Name}
use pqueue.Manifest.{ManifestRange}
use pqueue.Manifest.Slots.{publish_manifest}
use pqueue.Store.{Store}
use pqueue.Store.Names.{is_segment_name}
use pqueue.Append.{StoreConfig, Outcome, rotate_segment}
use pqueue.Compaction.{
  CompactionRange, choose_compaction_range, narrow_range, sum_dead_bytes, has_live,
}
use pqueue.Compaction.Plan.{Input, Plan, is_nil, part_of, find_parent_range_idx, plan_compaction}
use pqueue.Compaction.Splice.{drop_input, replace_input}
use pqueue.Compaction.Output.{
  LiveRecord, OutputSegment, collect_live_records, pack_output, write_output, replacements,
  replace_records, erase_sealed, forget_affected, cleanup_input_segments,
}

-- The output range: from the first output segment to the last, of a list that is not empty.
unfoldable pub output_range : List OutputSegment → ManifestRange
output_range [] = record { start_gen = 0; end_gen = 0 }
output_range (seg ∷ []) = record { start_gen = seg.generation; end_gen = seg.generation }
output_range (seg ∷ seg' ∷ segs) = record {
  start_gen = seg.generation;
  end_gen = (output_range (seg' ∷ segs)).end_gen;
}

unfoldable pub member : ℕ → List ℕ → Bool
member g [] = false
member g (x ∷ xs) = if g == x then true else member g xs

-- The first segment's file that no active generation names.
unfoldable pub find_dangling : List Name → List ℕ → Option Name
unfolding member is_segment_name
find_dangling [] active = none
find_dangling (name ∷ names) active = elim (is_segment_name name) [
  | none ↦ find_dangling names active
  | some gen ↦ if member gen active then find_dangling names active else some name
]

-- The counters of `CompactIdleResult` that the loop changes.
pub record IdleResult : Type 0 where
  pub status : Status
  pub steps_run : ℕ
  pub no_ops : ℕ
  pub compactions : ℕ
  pub input_segments : ℕ
  pub output_segments : ℕ

-- `CompactIdleResult`
pub record CompactIdleResult : Type 0 where
  pub loop : IdleResult
  pub dead_bytes_before : ℕ
  pub more_work_likely : Bool
  pub segment_count_exceeds_target : Bool
  pub remaining_dead_bytes : ℕ
  pub bytes_reclaimed : ℕ

abbrev pub idle_start : IdleResult
idle_start = record {
  status = success;
  steps_run = 0;
  no_ops = 0;
  compactions = 0;
  input_segments = 0;
  output_segments = 0;
}

module _ (fs : FileSystem) (exceeds : ℕ × ℕ → ℕ × ℕ → Bool) (config : StoreConfig) where
  -- The counts of input and output segments that the caller is told.
  abbrev pub Compacted : Type 0
  Compacted = Status × ℕ × ℕ × Store × fs.State

  -- What follows a publish: the input's files go, and the records point to the output.
  unfoldable pub finish_compaction :
      CompactionRange → List OutputSegment → ℕ → ℕ → Outcome fs → Compacted
  unfolding forget_affected replace_records replacements cleanup_input_segments
  finish_compaction range segs ins outs (st, m, s) =
      if is_ok st
      then (let (m', s') = cleanup_input_segments fs range m s in
          (
            success,
            ins,
            outs,
            record m' {
              tail_affected = forget_affected range m'.tail_affected;
              records = replace_records range (replacements segs) m'.records;
            },
            s',
          ))
      else (st, ins, outs, m, s)

  unfoldable pub drop_dead : ℕ → ManifestRange → Input → ℕ → Store → fs.State → Compacted
  unfolding finish_compaction drop_input
  drop_dead idx parent input ins m s = finish_compaction input.range [] ins 0 (
      publish_manifest fs
        (record {
          epoch = 0;
          next_generation = m.next_generation;
          ranges = drop_input idx parent input m.manifest_ranges;
          tail_generation = m.active_generation;
        })
        m s)

  unfoldable pub publish_output :
      ℕ → ManifestRange → Input → ℕ → List OutputSegment → Outcome fs → Compacted
  unfolding finish_compaction replace_input output_range
  publish_output idx parent input ins segs (st, m, s) =
      if is_ok st
      then finish_compaction input.range segs ins (length segs) (
          publish_manifest fs
            (record {
              epoch = 0;
              next_generation = to_u32 ((output_range segs).end_gen + 1);
              ranges = replace_input idx parent input (output_range segs) m.manifest_ranges;
              tail_generation = m.active_generation;
            })
            m s)
      else (st, ins, length segs, m, s)

  unfoldable pub compact_live :
      ℕ → ManifestRange → Input → ℕ → List LiveRecord → Store → fs.State → Compacted
  unfolding publish_output pack_output write_output
  compact_live idx parent input ins live m s =
      let segs = pack_output config.max_segment_bytes m.next_generation live in
      publish_output idx parent input ins segs (write_output fs segs m s)

  unfoldable pub compact_collected :
      ℕ → ManifestRange → Input → ℕ → Status × List LiveRecord → Store → fs.State → Compacted
  unfolding drop_dead compact_live
  compact_collected idx parent input ins (st, live) m s =
      if not (is_ok st)
      then (st, ins, 0, m, s)
      else if is_nil live
      then drop_dead idx parent input ins m s
      else compact_live idx parent input ins live m s

  -- With the parent range found again, behind a rotation that may have extended it.
  unfoldable pub compact_resolved : Plan → ℕ → Option ManifestRange → Store → fs.State → Compacted
  unfolding compact_collected collect_live_records
  compact_resolved plan idx none m s = (no_op_status, 0, 0, m, s)
  compact_resolved plan idx (some parent) m s =
      let range : CompactionRange =
        if plan.rotate then record plan.input { end_gen = parent.end_gen } else plan.input in
      compact_collected idx parent (part_of range parent)
        (to_u32 (range.end_gen + 2 ^ 32 + 1 - range.start_gen)) (collect_live_records fs range m s)
        m s

  unfoldable pub compact_rotated : Plan → Outcome fs → Compacted
  unfolding compact_resolved find_parent_range_idx
  compact_rotated plan (st, m, s) =
      let idx = find_parent_range_idx plan.input.start_gen plan.input.end_gen m in
      if is_ok st
      then compact_resolved plan idx (get_elem? m.manifest_ranges idx) m s
      else (st, 0, 0, m, s)

  unfoldable pub compact_planned : Option Plan → Store → fs.State → Compacted
  unfolding compact_rotated rotate_segment
  compact_planned none m s = (no_op_status, 0, 0, m, s)
  compact_planned (some plan) m s =
      compact_rotated plan (if plan.rotate then rotate_segment fs m s else (success, m, s))

  unfoldable pub compact_range : CompactionRange → Bool → Store → fs.State → Compacted
  unfolding compact_planned plan_compaction
  compact_range range fallback m s = compact_planned (plan_compaction config fallback range m) m s

  unfoldable pub compact_chosen : Option CompactionRange → Bool → Store → fs.State → Compacted
  unfolding compact_range narrow_range
  compact_chosen none fallback m s = (no_op_status, 0, 0, m, s)
  compact_chosen (some range) fallback m s =
      compact_range
        (if ltb 0 config.max_output_segments then narrow_range exceeds config range m else range)
        fallback m s

  unfoldable pub compact_one_segment : Bool → Store → fs.State → Compacted
  unfolding compact_chosen choose_compaction_range
  compact_one_segment fallback m s = compact_chosen (choose_compaction_range exceeds m) fallback m s

  unfoldable pub reclaim_front : List ManifestRange → Store → fs.State → Compacted
  unfolding compact_range has_live
  reclaim_front [] m s = (no_op_status, 0, 0, m, s)
  reclaim_front (r ∷ rs) m s =
      if has_live r.start_gen r.start_gen m.records
      then (no_op_status, 0, 0, m, s)
      else compact_range (record { start_gen = r.start_gen; end_gen = r.start_gen }) false m s

  unfoldable pub reclaim_dead_front_segment : Store → fs.State → Compacted
  unfolding reclaim_front
  reclaim_dead_front_segment m s = reclaim_front m.manifest_ranges m s

  -- The end of a step: a failure or a no-op ends the loop.
  unfoldable pub after_step :
      (IdleResult → Store → fs.State → IdleResult × Store × fs.State)
      → IdleResult
      → Compacted
      → IdleResult × Store × fs.State
  after_step next result (st, ins, outs, m, s) =
      if not (is_ok st)
      then (record result { status = st; steps_run = suc result.steps_run }, m, s)
      else if is_no_op st
      then (record result { steps_run = suc result.steps_run; no_ops = suc result.no_ops }, m, s)
      else next
          (record result {
            steps_run = suc result.steps_run;
            compactions = suc result.compactions;
            input_segments = result.input_segments + ins;
            output_segments = result.output_segments + outs;
          })
          m s

  -- `for (i = 0; i < maxSteps; ++i)`, with the steps that are left.
  unfoldable pub idle_loop : ℕ → IdleResult → Store → fs.State → IdleResult × Store × fs.State
  unfolding after_step compact_one_segment
  idle_loop zero result m s = (result, m, s)
  idle_loop (suc n) result m s = after_step (idle_loop n) result (compact_one_segment true m s)

  unfoldable pub compact_idle : ℕ → Store → fs.State → CompactIdleResult × Store × fs.State
  unfolding idle_loop sum_dead_bytes
  compact_idle max_steps m s =
      let (result, m', s') = idle_loop max_steps idle_start m s in
      (
        record {
          loop = result;
          dead_bytes_before = sum_dead_bytes m;
          more_work_likely =
              is_ok result.status && (result.no_ops == 0 && ltb 0 result.compactions);
          segment_count_exceeds_target =
              ltb config.idle_compaction_target_segments (length m'.active_generations);
          remaining_dead_bytes = sum_dead_bytes m';
          bytes_reclaimed =
              if ltb m'.total_on_disk_bytes m.total_on_disk_bytes
              then m.total_on_disk_bytes - m'.total_on_disk_bytes
              else 0;
        },
        m',
        s',
      )

-- `if (isSegmentName(dangling, gen)) sealedSegmentBytes_.erase(gen)`, behind the total.
unfoldable pub forget_dangling : Option ℕ → ℕ → Store → Store
unfolding erase_sealed
forget_dangling none size m = record m {
  total_on_disk_bytes = to_u32 (m.total_on_disk_bytes + 2 ^ 32 - size);
}
forget_dangling (some gen) size m = record m {
  total_on_disk_bytes = to_u32 (m.total_on_disk_bytes + 2 ^ 32 - size);
  sealed_segment_bytes = erase_sealed gen m.sealed_segment_bytes;
}

module _ (fs : FileSystem) where
  -- `std::uint64_t sz = 0; f->fileSize(dangling, sz)`: the size is 0 if there is none.
  unfoldable pub dangling_size : Name → fs.State → ℕ
  dangling_size name s = let (st, size) = fs.file_size name s in if is_ok st then to_u32 size else 0

  unfoldable pub remove_dangling : Option Name → Store → fs.State → Store × fs.State
  unfolding forget_dangling dangling_size
  remove_dangling none m s = (m, s)
  remove_dangling (some name) m s =
      let (st, s') = fs.remove_file name s in
      if is_ok st
      then (forget_dangling (is_segment_name name) (dangling_size name s) m, s')
      else (m, s')

  unfoldable pub cleanup_one_dangling_segment : Store → fs.State → Store × fs.State
  unfolding find_dangling remove_dangling
  cleanup_one_dangling_segment m s =
      let (st, files) = fs.list_files s in
      if is_ok st then remove_dangling (find_dangling files m.active_generations) m s else (m, s)
