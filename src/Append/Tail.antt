-- ===== src/Append/Tail.antt =====
-- The operations behind the room that they made: each appends its event to the tail.
use pqueue.Base.{
  ℕ, ◌+◌, ◌≤◌, ◌≡◌, refl, sym, ap, ◌∙◌, true, List, [], ◌∷◌, ◌++◌, some, arith, length, ==_refl,
}
use pqueue.Bytes.{Bytes}
use pqueue.LogFormat.{to_u32, serialize_pop_event}
use pqueue.Status.{success, is_ok}
use pqueue.FileSystem.{FileSystem, AppendLaws}
use pqueue.Replay.{
  SegmentRecord, ReplayState, apply_found, record_at, apply_rewrite, apply_pop, set_insert,
  find_generation, replace_record,
}
use pqueue.Replay.Events.{LogEvent, Fits, event_bytes}
use pqueue.Replay.Torn.{found_of, event_size}
use pqueue.Replay.Segments.{fresh, max_replay_segment_read_bytes}
use pqueue.Replay.Recovery.{log_size}
use pqueue.Replay.Restore.{Segment}
use pqueue.Store.{Store}
use pqueue.Store.Names.{segment_name}
use pqueue.Append.{
  Outcome, and_then, append_enqueue_event_bytes, append_enqueue_record, append_rewrite_record,
  count_appended, note_affected, pushed, rewritten,
}
use pqueue.Append.Commit.{popped}
use pqueue.Append.Live.{with_event, replay_of, log_state, state_after-append, log_size-append}
use pqueue.Append.Durable.{and_then-ok, IsLive, append-IsOnDisk, append_write-ok}

-- The replayed state behind one more event.
replay_of-with_event :
    (sealed : List Segment) (active : Segment) (e : LogEvent)
    → replay_of sealed (with_event active e)
      ≡ apply_found true active.generation
          (20 + log_size active.events)
          (found_of e)
          (replay_of sealed active)
replay_of-with_event sealed active e =
    state_after-append true active.generation 20 (log_state sealed fresh) active.events e

module _ (fs : FileSystem) (laws : AppendLaws fs) (max : ℕ) (m : Store) (s : fs.State)
    (sealed : List Segment) (active : Segment) (h : IsLive fs max m s sealed active) where
  -- What an operation makes of the fields, if it agrees with the replay of its event.
  record Agrees (e : LogEvent) (m' : Store) : Type 0 where
    mounted : m'.mounted ≡ true
    tail_is : m'.active_generation ≡ active.generation
    bytes_are : m'.active_segment_bytes ≡ to_u32 (20 + log_size active.events + event_size e)
    records_are :
        m'.records
        ≡ (apply_found true active.generation
            (20 + log_size active.events)
            (found_of e)
            (replay_of sealed active)).records
    tracked : m'.tail_dependencies_tracked ≡ true
    affected_are :
        m'.tail_affected
        ≡ (apply_found true active.generation
            (20 + log_size active.events)
            (found_of e)
            (replay_of sealed active)).tail_affected
    same_ranges : m'.manifest_ranges ≡ m.manifest_ranges
    same_next : m'.next_generation ≡ m.next_generation
    same_slot : m'.cached_written_slot ≡ m.cached_written_slot
    same_epoch : m'.cached_written_epoch ≡ m.cached_written_epoch
    same_generations : m'.active_generations ≡ m.active_generations
    same_sequence : m'.next_sequence ≡ m.next_sequence
    total_is : m'.total_on_disk_bytes ≡ to_u32 (m.total_on_disk_bytes + event_size e)

  -- The log behind the event, and what the operation left alone.
  pub record IsAppended (e : LogEvent) (r : Outcome fs) : Type 0 where
    pub live : IsLive fs max r.1 r.2 sealed (with_event active e)
    pub state :
        r.2
        ≡ (fs.write_at
            (segment_name m.active_generation)
            m.active_segment_bytes
            (event_bytes e)
            s).1
    pub same_ranges : r.1.manifest_ranges ≡ m.manifest_ranges
    pub same_next : r.1.next_generation ≡ m.next_generation
    pub same_slot : r.1.cached_written_slot ≡ m.cached_written_slot
    pub same_epoch : r.1.cached_written_epoch ≡ m.cached_written_epoch
    pub same_generations : r.1.active_generations ≡ m.active_generations
    pub same_sequence : r.1.next_sequence ≡ m.next_sequence
    pub total_is : r.1.total_on_disk_bytes ≡ to_u32 (m.total_on_disk_bytes + event_size e)

  module _ (e : LogEvent) (fits : Fits max e)
      (room : 20 + log_size active.events + event_size e ≤ max_replay_segment_read_bytes) where
    with_event-IsAppended :
        (m' : Store)
        → is_ok (append_enqueue_event_bytes fs (event_bytes e) m s).0 ≡ true
        → Agrees e m'
        → IsAppended e (success, m', (append_enqueue_event_bytes fs (event_bytes e) m s).2)
    with_event-IsAppended m' ok a =
        let (counted, old, new) = append-IsOnDisk fs laws max m s sealed active h e fits room ok in
        record {
          state = (append_write-ok fs (event_bytes e) m s ok).2;
          same_ranges = a.same_ranges;
          same_next = a.same_next;
          same_slot = a.same_slot;
          same_epoch = a.same_epoch;
          same_generations = a.same_generations;
          same_sequence = a.same_sequence;
          total_is = a.total_is;
          live = record {
            sealed_stored = old;
            active_stored = new;
            apart = h.apart;
            mounted = a.mounted;
            tail_is = a.tail_is;
            bytes_are = omega (arith, a.bytes_are, room, log_size-append active.events e);
            records_are =
                a.records_are ∙ ap ReplayState.records (sym (replay_of-with_event sealed active e));
            tracked = a.tracked;
            affected_are =
                a.affected_are
                ∙ ap ReplayState.tail_affected (sym (replay_of-with_event sealed active e));
          };
        }

    -- An operation that appends the event and then changes the fields.
    then-IsAppended :
        (next : Store → Store)
        → (let r =
              and_then fs
                (append_enqueue_event_bytes fs (event_bytes e) m s)
                (λ m' s'. (success, next m', s')) in
            is_ok r.0 ≡ true → Agrees e (next (count_appended (event_size e) m)) → IsAppended e r)
    then-IsAppended next ok a =
        let (wrote, is) =
          and_then-ok fs (append_enqueue_event_bytes fs (event_bytes e) m s)
            (λ m' s'. (success, next m', s')) ok in
        let (counted, old, new) =
          append-IsOnDisk fs laws max m s sealed active h e fits room wrote in
        rw is (rw counted (with_event-IsAppended (next (count_appended (event_size e) m)) wrote a))

  abbrev placed : ℕ → ℕ → ℕ → ℕ → SegmentRecord
  placed seq gen offset size = record {
    sequence = seq;
    segment_generation = gen;
    payload_offset = offset;
    payload_bytes = size;
  }

  -- The record that an operation makes is the one that the replay finds.
  placed-record_at :
      (seq size : ℕ)
      → 20 + log_size active.events + (size + 24) ≤ max_replay_segment_read_bytes
      → placed seq m.active_generation (to_u32 (m.active_segment_bytes + 16)) (to_u32 size)
        ≡ record_at active.generation (20 + log_size active.events) seq size
  unfolding record_at
  placed-record_at seq size room =
      ap (λ g. placed seq g (to_u32 (m.active_segment_bytes + 16)) (to_u32 size)) h.tail_is
      ∙ ap (λ o. placed seq active.generation o (to_u32 size)) offset
      ∙ ap (placed seq active.generation (20 + log_size active.events + 16)) small
    where
      offset : to_u32 (m.active_segment_bytes + 16) ≡ 20 + log_size active.events + 16
      offset = omega (arith, room, h.bytes_are)

      small : to_u32 size ≡ size
      small = omega (arith, room)

  counted_bytes :
      (n : ℕ) → (count_appended n m).active_segment_bytes ≡ to_u32 (20 + log_size active.events + n)
  unfolding count_appended
  counted_bytes n = ap (λ b. to_u32 (b + n)) h.bytes_are

  pub append_enqueue_record-IsAppended :
      (seq : ℕ) (p : Bytes)
      → Fits max (LogEvent.enqueue seq p)
      → 20 + log_size active.events + (length p + 24) ≤ max_replay_segment_read_bytes
      → is_ok (append_enqueue_record fs seq p m s).0 ≡ true
      → let r = append_enqueue_record fs seq p m s in IsAppended (LogEvent.enqueue seq p) r
  unfolding append_enqueue_record count_appended apply_found
  append_enqueue_record-IsAppended seq p fits room ok =
      then-IsAppended (LogEvent.enqueue seq p) fits room
        (pushed seq (to_u32 (m.active_segment_bytes + 16)) (to_u32 (length p))) ok
        (record {
          mounted = h.mounted;
          tail_is = h.tail_is;
          bytes_are = counted_bytes (length p + 24);
          records_are =
              ap
                (λ rs.
                  rs
                  ++ (placed seq m.active_generation (to_u32 (m.active_segment_bytes + 16))
                        (to_u32 (length p))
                      ∷ []))
                h.records_are
              ∙ ap (λ r. (replay_of sealed active).records ++ (r ∷ []))
                  (placed-record_at seq (length p) room);
          tracked = h.tracked;
          affected_are = h.affected_are;
          same_ranges = refl;
          same_next = refl;
          same_slot = refl;
          same_epoch = refl;
          same_generations = refl;
          same_sequence = refl;
          total_is = refl;
        })

  pub append_rewrite_record-IsAppended :
      (seq old_gen : ℕ) (p : Bytes)
      → Fits max (LogEvent.rewrite seq p)
      → 20 + log_size active.events + (length p + 24) ≤ max_replay_segment_read_bytes
      → find_generation seq m.records ≡ some old_gen
      → is_ok (append_rewrite_record fs seq p old_gen m s).0 ≡ true
      → let r = append_rewrite_record fs seq p old_gen m s in IsAppended (LogEvent.rewrite seq p) r
  unfolding append_rewrite_record count_appended apply_found apply_rewrite rewritten note_affected
      record_at
  append_rewrite_record-IsAppended seq old_gen p fits room found ok =
      let there : find_generation seq (replay_of sealed active).records ≡ some old_gen =
        ap (find_generation seq) (sym h.records_are) ∙ found in
      then-IsAppended (LogEvent.rewrite seq p) fits room
        (rewritten seq (to_u32 (m.active_segment_bytes + 16)) (to_u32 (length p)) old_gen) ok
        (record {
          mounted = rw h.tracked h.mounted;
          tail_is = rw h.tracked h.tail_is;
          bytes_are = rw h.tracked (counted_bytes (length p + 24));
          records_are = rw there (
              ap
                (replace_record (
                  placed seq m.active_generation (to_u32 (m.active_segment_bytes + 16))
                    (to_u32 (length p))))
                h.records_are
              ∙ ap (λ r. replace_record r (replay_of sealed active).records)
                  (placed-record_at seq (length p) room));
          tracked = rw h.tracked refl;
          affected_are = rw (there, h.tracked) (ap (set_insert old_gen) h.affected_are);
          same_ranges = rw h.tracked refl;
          same_next = rw h.tracked refl;
          same_slot = rw h.tracked refl;
          same_epoch = rw h.tracked refl;
          same_generations = rw h.tracked refl;
          same_sequence = rw h.tracked refl;
          total_is = rw h.tracked refl;
        })

  pub append_pop_record-IsAppended :
      (r : SegmentRecord) (rs : List SegmentRecord)
      → Fits max (LogEvent.pop r.sequence)
      → 20 + log_size active.events + 20 ≤ max_replay_segment_read_bytes
      → m.records ≡ r ∷ rs
      → let a = append_enqueue_event_bytes fs (serialize_pop_event r.sequence) m s in
        is_ok a.0 ≡ true
        → IsAppended (LogEvent.pop r.sequence) (success, popped r.segment_generation rs a.1, a.2)
  unfolding count_appended apply_found apply_pop popped note_affected
  append_pop_record-IsAppended r rs fits room front ok =
      let there : (replay_of sealed active).records ≡ r ∷ rs = sym h.records_are ∙ front in
      let (counted, old, new) =
        append-IsOnDisk fs laws max m s sealed active h (LogEvent.pop r.sequence) fits room ok in
      rw counted (
        with_event-IsAppended (LogEvent.pop r.sequence) fits room
          (popped r.segment_generation rs (count_appended 20 m)) ok
          (record {
            mounted = rw h.tracked h.mounted;
            tail_is = rw h.tracked h.tail_is;
            bytes_are = rw h.tracked (counted_bytes 20);
            records_are = rw (there, ==_refl r.sequence) refl;
            tracked = rw h.tracked refl;
            affected_are =
                rw (there, ==_refl r.sequence, h.tracked)
                  (ap (set_insert r.segment_generation) h.affected_are);
            same_ranges = rw h.tracked refl;
            same_next = rw h.tracked refl;
            same_slot = rw h.tracked refl;
            same_epoch = rw h.tracked refl;
            same_generations = rw h.tracked refl;
            same_sequence = rw h.tracked refl;
            total_is = rw h.tracked refl;
          }))
