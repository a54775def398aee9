-- ===== src/Append/Commit.antt =====
-- The interface of AppendLogStore to the queue, src/pqueue/append_log_store/store.cpp: commits with
-- their admission, reads, locks, `format` and the index.
use pqueue.Base.{
  ℕ, zero, suc, ◌+◌, ◌-◌, ◌*◌, ◌^◌, min, Bool, true, false, not, ◌&&◌, ◌||◌, List, [], ◌∷◌, Option,
  none, some, ltb, leb, ◌==◌, if◌then◌else◌, length, get_elem?,
}
use pqueue.Bytes.{Bytes}
use pqueue.LogFormat.{segment_header_bytes, enqueue_overhead_bytes, to_u32}
use pqueue.Status.{Status, StatusCode, success, failure, is_ok, is_no_op}
use pqueue.FileSystem.{FileSystem, Name}
use pqueue.Manifest.{manifest_fixed_bytes}
use pqueue.Manifest.Slots.{slot_name}
use pqueue.Replay.{SegmentRecord}
use pqueue.Store.{Store, Slot, slot_a, slot_b}
use pqueue.Store.Names.{segment_name, is_segment_name}
use pqueue.Queue.{QueueIndex}
use pqueue.Append.{
  StoreConfig, Outcome, and_then, needs_rotation, make_room, append_enqueue_record,
  append_pop_event, append_rewrite_event, note_affected,
}
use pqueue.Append.Mount.{ensure_mounted}
use pqueue.Compaction.Run.{compact_one_segment}

-- `records_.back()` of a deque that is not empty, behind `r`.
unfoldable pub back_of : SegmentRecord → List SegmentRecord → SegmentRecord
back_of r [] = r
back_of r (r' ∷ rs) = back_of r' rs

unfoldable pub index_from : ℕ → List SegmentRecord → QueueIndex
unfolding back_of
index_from next_sequence [] = record { head = next_sequence; tail = next_sequence; count = 0 }
index_from next_sequence (r ∷ rs) = record {
  head = r.sequence;
  tail = to_u32 ((back_of r rs).sequence + 1);
  count = to_u32 (length (r ∷ rs));
}

unfoldable pub index_from_records : Store → QueueIndex
unfolding index_from
index_from_records m = index_from m.next_sequence m.records

-- The size of the slot that the next publish overwrites.
unfoldable pub inactive_slot_bytes : Store → Option Slot → ℕ
inactive_slot_bytes m none = min m.manifest_bytes_a m.manifest_bytes_b
inactive_slot_bytes m (some slot_a) = m.manifest_bytes_b
inactive_slot_bytes m (some slot_b) = m.manifest_bytes_a

abbrev minus_or_zero : ℕ → ℕ → ℕ
minus_or_zero a b = if ltb b a then a - b else 0

unfoldable pub append_growth_bytes : StoreConfig → ℕ → Store → ℕ
unfolding needs_rotation inactive_slot_bytes
append_growth_bytes config record_size m =
    let event_bytes = to_u32 (enqueue_overhead_bytes + record_size) in
    let rotates = needs_rotation config event_bytes m in
    let ranges = to_u32 (to_u32 (length m.manifest_ranges) + (if rotates then 1 else 0)) in
    let growth =
      minus_or_zero (to_u32 (manifest_fixed_bytes + to_u32 (8 * ranges)))
        (inactive_slot_bytes m m.cached_written_slot) in
    if not (m.active_segment_bytes == 0 || rotates)
    then event_bytes
    else to_u32 (to_u32 (event_bytes + segment_header_bytes) + growth)

-- `totalOnDiskBytes() + appendGrowthBytes(size) + drainReserveBytes > maxTotalBytes`, on 32 bits.
unfoldable pub over_total : StoreConfig → ℕ → Store → Bool
unfolding append_growth_bytes
over_total config record_size m = ltb config.max_total_bytes (
    to_u32 (
      to_u32 (m.total_on_disk_bytes + append_growth_bytes config record_size m)
      + config.drain_reserve_bytes))

-- The bytes that must be free, on 64 bits.
unfoldable pub needed_bytes : StoreConfig → ℕ → Store → ℕ
unfolding append_growth_bytes
needed_bytes config record_size m =
    config.min_free_bytes + append_growth_bytes config record_size m + config.drain_reserve_bytes

-- The records behind the front, and the segment that the front stood in noted.
unfoldable pub popped : ℕ → List SegmentRecord → Store → Store
unfolding note_affected
popped gen rest m = record (note_affected gen m) { records = rest }

-- The two checks that answer RecordTooLarge.
unfoldable pub too_large : StoreConfig → Bytes → Bool
too_large config bytes =
    ltb config.max_record_bytes (length bytes)
    || ltb config.max_segment_bytes (segment_header_bytes + enqueue_overhead_bytes + length bytes)

module _ (fs : FileSystem) (exceeds : ℕ × ℕ → ℕ × ℕ → Bool) (config : StoreConfig) where
  -- On 64 bits.
  unfoldable pub append_would_hit_admission_pressure : ℕ → Store → fs.State → Bool
  unfolding append_growth_bytes needed_bytes
  append_would_hit_admission_pressure record_size m s =
      (ltb 0 config.max_total_bytes
        && ltb config.max_total_bytes (
            m.total_on_disk_bytes
            + append_growth_bytes config record_size m
            + config.drain_reserve_bytes))
      || (ltb 0 config.min_free_bytes && ltb (fs.free_bytes s) (needed_bytes config record_size m))

  -- What a compaction means for the loop that asked for it.
  unfoldable pub after_compaction :
      (Store → fs.State → Option (Outcome fs))
      → Status × ℕ × ℕ × Store × fs.State
      → Option (Outcome fs)
  after_compaction next (st, ins, outs, m, s) =
      if not (is_ok st)
      then some (st, m, s)
      else if is_no_op st
      then some (failure StatusCode.queue_full, m, s)
      else next m s

  -- `while (pressure) { compactOneSegment ... }`; `none` is a loop that `n` rounds do not end.
  unfoldable pub compact_while :
      (Store → fs.State → Bool) → ℕ → Store → fs.State → Option (Outcome fs)
  unfolding after_compaction compact_one_segment
  compact_while pressure zero m s = if pressure m s then none else some (success, m, s)
  compact_while pressure (suc n) m s =
      if pressure m s
      then after_compaction (compact_while pressure n)
          (compact_one_segment fs exceeds config false m s)
      else some (success, m, s)

  -- The status of one loop decides whether the next part runs.
  unfoldable pub and_next :
      Option (Outcome fs) → (Store → fs.State → Option (Outcome fs)) → Option (Outcome fs)
  and_next none next = none
  and_next (some (st, m, s)) next = if is_ok st then next m s else some (st, m, s)

  unfoldable pub relieve_total : ℕ → ℕ → Store → fs.State → Option (Outcome fs)
  unfolding compact_while over_total
  relieve_total fuel record_size m s =
      if ltb 0 config.max_total_bytes
      then compact_while (λ m' s'. over_total config record_size m') fuel m s
      else some (success, m, s)

  -- `needed` is computed once, in front of the loop.
  unfoldable pub relieve_free : ℕ → ℕ → Store → fs.State → Option (Outcome fs)
  unfolding compact_while needed_bytes
  relieve_free fuel record_size m s =
      if ltb 0 config.min_free_bytes
      then compact_while (λ m' s'. ltb (fs.free_bytes s') (needed_bytes config record_size m)) fuel
          m s
      else some (success, m, s)

  unfoldable pub admit : ℕ → ℕ → Store → fs.State → Option (Outcome fs)
  unfolding and_next relieve_total relieve_free
  admit fuel record_size m s =
      and_next (relieve_total fuel record_size m s) (relieve_free fuel record_size)

  -- The part of `commitEnqueue` behind the admission.
  unfoldable pub write_enqueue : ℕ → Bytes → Store → fs.State → Outcome fs
  unfolding and_then make_room append_enqueue_record
  write_enqueue sequence bytes m s =
      and_then fs
        (make_room fs config (to_u32 (enqueue_overhead_bytes + to_u32 (length bytes))) sequence m s)
        (append_enqueue_record fs sequence bytes)

  unfoldable pub enqueue_mounted : ℕ → ℕ → Bytes → Store → fs.State → Option (Outcome fs)
  unfolding too_large and_next admit write_enqueue
  enqueue_mounted fuel sequence bytes m s =
      if too_large config bytes
      then some (failure StatusCode.record_too_large, m, s)
      else if sequence == 2 ^ 32 - 1
      then some (failure StatusCode.sequence_exhausted, m, s)
      else and_next (admit fuel (to_u32 (length bytes)) m s)
          (λ m1 s1. some (write_enqueue sequence bytes m1 s1))

  unfoldable pub commit_enqueue : ℕ → ℕ → Bytes → Store → fs.State → Option (Outcome fs)
  unfolding and_next ensure_mounted enqueue_mounted
  commit_enqueue fuel sequence bytes m s =
      and_next (some (ensure_mounted fs config m s)) (enqueue_mounted fuel sequence bytes)

  unfoldable pub rewrite_mounted : ℕ → ℕ → Bytes → Store → fs.State → Option (Outcome fs)
  unfolding too_large and_next admit append_rewrite_event
  rewrite_mounted fuel sequence bytes m s =
      if too_large config bytes
      then some (failure StatusCode.record_too_large, m, s)
      else and_next (admit fuel (to_u32 (length bytes)) m s)
          (λ m1 s1. some (append_rewrite_event fs config sequence bytes m1 s1))

  unfoldable pub rewrite_record : ℕ → ℕ → Bytes → Store → fs.State → Option (Outcome fs)
  unfolding and_next ensure_mounted rewrite_mounted
  rewrite_record fuel sequence bytes m s =
      and_next (some (ensure_mounted fs config m s)) (rewrite_mounted fuel sequence bytes)

  unfoldable pub pop_front : ℕ → List SegmentRecord → Store → fs.State → Outcome fs
  unfolding and_then append_pop_event popped
  pop_front expected [] m s = (failure StatusCode.invalid_index, m, s)
  pop_front expected (r ∷ rs) m s =
      if not (r.sequence == expected)
      then (failure StatusCode.invalid_index, m, s)
      else and_then fs (append_pop_event fs config r.sequence m s)
          (λ m1 s1. (success, popped r.segment_generation rs m1, s1))

  unfoldable pub commit_pop : ℕ → Store → fs.State → Outcome fs
  unfolding and_then ensure_mounted pop_front
  commit_pop expected m s =
      and_then fs (ensure_mounted fs config m s) (λ m1 s1. pop_front expected m1.records m1 s1)

  -- Reads return their data with the status, and an empty one with a failure.
  unfoldable pub with_mounted {ℓ} :
      {R : Type ℓ} → (Status → R) → (Store → fs.State → R) → Store → fs.State → R × Store × fs.State
  unfolding ensure_mounted
  with_mounted refuse read m s =
      let (st, m', s') = ensure_mounted fs config m s in
      if is_ok st then (read m' s', m', s') else (refuse st, m', s')

  unfoldable pub read_index : Store → fs.State → (Status × QueueIndex) × Store × fs.State
  unfolding with_mounted index_from_records
  read_index m s =
      with_mounted (λ st. (st, record { head = 0; tail = 0; count = 0 }))
        (λ m' s'. (success, index_from_records m')) m s

  -- `sequence < head || sequence >= head + size` answers InvalidRecord.
  unfoldable pub live_record : ℕ → List SegmentRecord → Status × Option SegmentRecord
  live_record sequence [] = (failure StatusCode.queue_empty, none)
  live_record sequence (r ∷ rs) =
      if ltb sequence r.sequence || leb (to_u32 (r.sequence + to_u32 (length (r ∷ rs)))) sequence
      then (failure StatusCode.invalid_record, none)
      else (success, get_elem? (r ∷ rs) (sequence - r.sequence))

  unfoldable pub read_live_record : Status × Option SegmentRecord → fs.State → Status × Bytes
  read_live_record (st, none) s = (st, [])
  read_live_record (st, some sr) s =
      fs.read_at (segment_name sr.segment_generation) sr.payload_offset sr.payload_bytes s

  unfoldable pub read_record : ℕ → Store → fs.State → (Status × Bytes) × Store × fs.State
  unfolding with_mounted live_record read_live_record
  read_record sequence m s =
      with_mounted (λ st. (st, [])) (λ m' s'. read_live_record (live_record sequence m'.records) s')
        m s

  -- `static_cast<std::size_t>(sequence - head) >= records_.size()` answers InvalidRecord.
  unfoldable pub live_size_of : ℕ → List SegmentRecord → Status × ℕ
  live_size_of sequence [] = (failure StatusCode.queue_empty, 0)
  live_size_of sequence (r ∷ rs) =
      if ltb sequence r.sequence
      then (failure StatusCode.invalid_record, 0)
      else elim (get_elem? (r ∷ rs) (sequence - r.sequence)) [
        | none ↦ (failure StatusCode.invalid_record, 0)
        | some sr ↦ (success, sr.payload_bytes)
      ]

  unfoldable pub read_record_size : ℕ → Store → fs.State → (Status × ℕ) × Store × fs.State
  unfolding with_mounted live_size_of
  read_record_size sequence m s =
      with_mounted (λ st. (st, 0)) (λ m' s'. live_size_of sequence m'.records) m s

  unfoldable pub try_acquire_lock_file : Name → Bytes → Store → fs.State → Outcome fs
  unfolding and_then ensure_mounted
  try_acquire_lock_file name contents m s =
      and_then fs (ensure_mounted fs config m s)
        (λ m' s'. let (st, t) = fs.try_acquire_lock_file name contents s' in (st, m', t))

  unfoldable pub release_lock_file : Name → Bytes → Store → fs.State → Outcome fs
  release_lock_file name contents m s =
      let (st, t) = fs.release_lock_file name contents s in (st, m, t)

  unfoldable pub recover_stale_lock_file : Name → Bytes → Store → fs.State → Outcome fs
  unfolding and_then ensure_mounted
  recover_stale_lock_file name contents m s =
      and_then fs (ensure_mounted fs config m s)
        (λ m' s'. let (st, t) = fs.recover_stale_lock_file name contents s' in (st, m', t))

  unfoldable pub can_enqueue : fs.State → Bool
  can_enqueue s = leb config.min_free_bytes (fs.free_bytes s)

  -- The statuses of the removals are ignored.
  unfoldable pub remove_all_segments : List Name → fs.State → fs.State
  unfolding is_segment_name
  remove_all_segments [] s = s
  remove_all_segments (name ∷ names) s =
      remove_all_segments names
        (elim (is_segment_name name) [ none ↦ s | some gen ↦ (fs.remove_file name s).1 ])

  abbrev formatted : Store → Store
  formatted m = record m {
    manifest_ranges = [];
    active_generations = [];
    sealed_segment_bytes = [];
    records = [];
    cached_written_slot = none;
    cached_written_epoch = 0;
    active_generation = 0;
    active_segment_bytes = 0;
    total_on_disk_bytes = 0;
    next_generation = 1;
    tail_dependencies_tracked = true;
    tail_affected = [];
    next_sequence = 0;
    manifest_bytes_a = 0;
    manifest_bytes_b = 0;
    mounted = true;
  }

  unfoldable pub format : Store → fs.State → Outcome fs
  unfolding remove_all_segments
  format m s =
      let (st, s1) = fs.mount s in
      let (listed, files) = fs.list_files s1 in
      let s2 = remove_all_segments files s1 in
      let s3 = (fs.remove_file (slot_name slot_a) s2).1 in
      let s4 = (fs.remove_file (slot_name slot_b) s3).1 in
      if not (is_ok st)
      then (st, m, s1)
      else if not (is_ok listed)
      then (listed, m, s1)
      else (success, formatted m, s4)
