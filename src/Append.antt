-- ===== src/Append.antt =====
-- The operations of AppendLogStore on the active segment, src/pqueue/append_log_store/store.cpp: a
-- segment is created, sealed and followed by the next one, and events are appended to it. A method
-- returns its status with the store's fields in memory and the file system's state. Diagnostics are
-- left out, and `fs()` is taken to find a file system.
pub mod Mount
pub mod Commit
pub mod Live
pub mod Durable
pub mod Tail
pub mod Ranges
pub mod Written
pub mod Sealed
pub mod Install
pub mod Rotate
pub mod Room
pub mod Commits
pub mod Interface
pub mod Reread
pub mod Served
pub mod Remount
use pqueue.Base.{
  ℕ, ◌+◌, ◌-◌, ◌^◌, Bool, true, false, not, ◌&&◌, List, [], ◌∷◌, ◌++◌, Option, none, some, ltb, leb,
  ◌==◌, if◌then◌else◌, length,
}
use pqueue.Bytes.{Bytes}
use pqueue.LogFormat.{
  segment_header_bytes, pop_event_bytes, enqueue_header_bytes, enqueue_overhead_bytes, to_u32,
  serialize_segment_header, serialize_pop_event, serialize_rewrite_event, serialize_enqueue_event,
}
use pqueue.Status.{Status, StatusCode, success, failure, is_ok}
use pqueue.FileSystem.{FileSystem}
use pqueue.Manifest.{ManifestRange, manifest_max_ranges}
use pqueue.Replay.{SegmentRecord, set_insert, replace_record, find_generation}
use pqueue.Store.{Store}
use pqueue.Store.Names.{segment_name}
use pqueue.Store.Tracked.{must_be_new, set_sealed, write_segment_file_tracked}
use pqueue.Manifest.Slots.{publish_manifest}

-- `AppendLogConfig`, without the file system and the events.
pub record StoreConfig : Type 0 where
  pub max_segment_bytes : ℕ
  pub max_total_bytes : ℕ
  pub min_free_bytes : ℕ
  pub drain_reserve_bytes : ℕ
  pub idle_compaction_target_segments : ℕ
  pub max_output_segments : ℕ
  pub max_record_bytes : ℕ

-- The ranges behind the sealing of the tail `gen`: it extends the last range or starts one.
unfoldable pub append_range : List ManifestRange → ℕ → List ManifestRange
append_range [] gen = record { start_gen = gen; end_gen = gen } ∷ []
append_range (r ∷ []) gen =
    if to_u32 (r.end_gen + 1) == gen
    then record r { end_gen = gen } ∷ []
    else r ∷ record { start_gen = gen; end_gen = gen } ∷ []
append_range (r ∷ r' ∷ rs) gen = r ∷ append_range (r' ∷ rs) gen

unfoldable pub sealed_ranges : ℕ → List ManifestRange → List ManifestRange
unfolding append_range
sealed_ranges old_tail_gen ranges =
    if old_tail_gen == 0 then ranges else append_range ranges old_tail_gen

-- `records_.empty() ? 0 : records_.back().sequence + 1`
unfoldable pub next_base : List SegmentRecord → ℕ
next_base [] = 0
next_base (r ∷ []) = to_u32 (r.sequence + 1)
next_base (r ∷ r' ∷ rs) = next_base (r' ∷ rs)

-- `activeSegmentBytes_ > kSegmentHeaderBytes && activeSegmentBytes_ + n > maxSegmentBytes`
unfoldable pub needs_rotation : StoreConfig → ℕ → Store → Bool
needs_rotation config n m =
    ltb segment_header_bytes m.active_segment_bytes
    && ltb config.max_segment_bytes (to_u32 (m.active_segment_bytes + n))

-- The fields of a tail that was just created.
unfoldable pub start_tail : ℕ → Store → Store
start_tail gen m = record m {
  active_generation = gen;
  active_segment_bytes = segment_header_bytes;
  tail_dependencies_tracked = true;
  tail_affected = [];
}

unfoldable pub count_appended : ℕ → Store → Store
count_appended n m = record m {
  active_segment_bytes = to_u32 (m.active_segment_bytes + n);
  total_on_disk_bytes = to_u32 (m.total_on_disk_bytes + n);
}

-- `if (activeTailDependenciesTracked_) activeTailAffectedGenerations_.insert(gen)`
unfoldable pub note_affected : ℕ → Store → Store
unfolding set_insert
note_affected gen m =
    if m.tail_dependencies_tracked
    then record m { tail_affected = set_insert gen m.tail_affected }
    else m

-- `records_.push_back({sequence, activeGeneration_, payloadOffset, size})`
abbrev pub pushed : ℕ → ℕ → ℕ → Store → Store
pushed sequence payload_offset size m = record m {
  records =
      m.records
      ++ (record {
        sequence = sequence;
        segment_generation = m.active_generation;
        payload_offset = payload_offset;
        payload_bytes = size;
      }
          ∷ []);
}

-- The record of the sequence number names its new place.
unfoldable pub rewritten : ℕ → ℕ → ℕ → ℕ → Store → Store
unfolding note_affected replace_record
rewritten sequence payload_offset size old_gen m = record (note_affected old_gen m) {
  records =
      replace_record
        (record {
          sequence = sequence;
          segment_generation = m.active_generation;
          payload_offset = payload_offset;
          payload_bytes = size;
        })
        m.records;
}

module _ (fs : FileSystem) where
  abbrev pub Outcome : Type 0
  Outcome = Status × Store × fs.State

  -- `if (!st.ok()) return st;` between two steps.
  unfoldable pub and_then : Outcome → (Store → fs.State → Outcome) → Outcome
  and_then (st, m, s) next = if is_ok st then next m s else (st, m, s)

  unfoldable pub create_segment : ℕ → ℕ → Store → fs.State → Outcome
  create_segment generation start_seq m s =
      write_segment_file_tracked fs (segment_name generation)
        (serialize_segment_header generation start_seq) must_be_new m s

  -- A new segment becomes the tail once the manifest that names it is published.
  unfoldable pub install_tail : List ManifestRange → ℕ → ℕ → Store → fs.State → Outcome
  unfolding and_then create_segment start_tail
  install_tail ranges new_gen base_seq m s =
      and_then (create_segment new_gen base_seq m s) (λ m1 s1.
        and_then
          (publish_manifest fs
            (record {
              epoch = 0;
              next_generation = to_u32 (new_gen + 1);
              ranges = ranges;
              tail_generation = new_gen;
            })
            m1 s1)
          (λ m2 s2. (success, start_tail new_gen m2, s2)))

  abbrev seal_size : Store → Store
  seal_size m = if m.active_generation == 0 then m else record m {
    sealed_segment_bytes =
        set_sealed m.active_generation m.active_segment_bytes m.sealed_segment_bytes;
  }

  unfoldable pub rotate_segment : Store → fs.State → Outcome
  unfolding sealed_ranges set_sealed next_base install_tail
  rotate_segment m s =
      let new_ranges = sealed_ranges m.active_generation m.manifest_ranges in
      if ltb manifest_max_ranges (length new_ranges)
      then (failure StatusCode.range_limit_exceeded, m, s)
      else install_tail new_ranges m.next_generation (next_base m.records) (seal_size m) s

  unfoldable pub ensure_active_segment : ℕ → Store → fs.State → Outcome
  unfolding install_tail
  ensure_active_segment base_seq m s =
      if m.active_segment_bytes == 0
      then install_tail m.manifest_ranges m.next_generation base_seq m s
      else (success, m, s)

  unfoldable pub append_enqueue_event_bytes : Bytes → Store → fs.State → Outcome
  unfolding count_appended
  append_enqueue_event_bytes event_bytes m s =
      let (st, s') =
        fs.write_at (segment_name m.active_generation) m.active_segment_bytes event_bytes s in
      if is_ok st then (st, count_appended (to_u32 (length event_bytes)) m, s') else (st, m, s')

  -- What an append does first: the tail is sealed if the event does not fit, and there is a tail.
  unfoldable pub make_room : StoreConfig → ℕ → ℕ → Store → fs.State → Outcome
  unfolding needs_rotation rotate_segment ensure_active_segment and_then
  make_room config n base_seq m s =
      and_then (if needs_rotation config n m then rotate_segment m s else (success, m, s))
        (ensure_active_segment base_seq)

  unfoldable pub append_pop_event : StoreConfig → ℕ → Store → fs.State → Outcome
  unfolding and_then make_room append_enqueue_event_bytes
  append_pop_event config sequence m s =
      and_then (make_room config pop_event_bytes sequence m s)
        (append_enqueue_event_bytes (serialize_pop_event sequence))

  -- The part of `commitEnqueue` behind the room: the event is written, then the record pushed.
  unfoldable pub append_enqueue_record : ℕ → Bytes → Store → fs.State → Outcome
  unfolding and_then append_enqueue_event_bytes
  append_enqueue_record sequence bytes m s =
      let payload_offset = to_u32 (m.active_segment_bytes + enqueue_header_bytes) in
      and_then (append_enqueue_event_bytes (serialize_enqueue_event sequence bytes) m s)
        (λ m' s'. (success, pushed sequence payload_offset (to_u32 (length bytes)) m', s'))

  -- The part of `appendRewriteEvent` behind the room.
  unfoldable pub append_rewrite_record : ℕ → Bytes → ℕ → Store → fs.State → Outcome
  unfolding and_then append_enqueue_event_bytes rewritten
  append_rewrite_record sequence bytes old_gen m s =
      let payload_offset = to_u32 (m.active_segment_bytes + enqueue_header_bytes) in
      and_then (append_enqueue_event_bytes (serialize_rewrite_event sequence bytes) m s) (λ m' s'.
        (success, rewritten sequence payload_offset (to_u32 (length bytes)) old_gen m', s'))

  -- With the segment of the record that is rewritten, if it is in the queue.
  unfoldable pub append_rewrite_found :
      StoreConfig → ℕ → Bytes → Option ℕ → Store → fs.State → Outcome
  unfolding and_then make_room append_rewrite_record
  append_rewrite_found config sequence bytes none m s = (failure StatusCode.invalid_record, m, s)
  append_rewrite_found config sequence bytes (some old_gen) m s =
      and_then
        (make_room config (to_u32 (enqueue_overhead_bytes + to_u32 (length bytes))) sequence m s)
        (append_rewrite_record sequence bytes old_gen)

  unfoldable pub append_rewrite_event : StoreConfig → ℕ → Bytes → Store → fs.State → Outcome
  unfolding append_rewrite_found find_generation
  append_rewrite_event config sequence bytes m s =
      append_rewrite_found config sequence bytes (find_generation sequence m.records) m s
