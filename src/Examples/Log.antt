-- ===== src/Examples/Log.antt =====
-- A log of two segments, the second of which ends inside an event.
use pqueue.Base.{ℕ, ◌≡◌, refl, true, [], ◌∷◌, ◌++◌, some, arith, drop, ◌==◌, if◌then◌else◌}
use pqueue.Bytes.{Bytes, u32_bytes, u16_bytes, write_u32, write_u16}
use pqueue.LogFormat.{
  serialize_segment_header, serialize_enqueue_event, serialize_pop_event, serialize_payload_event,
}
use pqueue.Replay.{ReplayState, at_torn, torn, find_event, apply_found}
use pqueue.Replay.Events.{LogEvent, event_bytes, queue_after}
use pqueue.Replay.Torn.{find_event-torn, find-event_bytes, found_of}
use pqueue.Replay.Contents.{contents, contents-apply_found}
use pqueue.Replay.Recovery.{cut, numbers_after}
use pqueue.Replay.Segments.{scan_log, fresh}
use pqueue.Replay.Restore.{Segment, IsStored, segment_bytes, files_of, scan_log-recovers}

abbrev two_appends : Segment
two_appends = record {
  generation = 1;
  start_seq = 0;
  events = LogEvent.enqueue 0 (104 ∷ []) ∷ LogEvent.enqueue 1 (105 ∷ 106 ∷ []) ∷ [];
}

abbrev one_pop : Segment
one_pop = record { generation = 2; start_seq = 2; events = LogEvent.pop 0 ∷ [] }

abbrev lost_append : LogEvent
lost_append = LogEvent.enqueue 2 (107 ∷ [])

abbrev torn_tail : Bytes
torn_tail = 80 ∷ 81 ∷ 69 ∷ 81 ∷ 1 ∷ []

abbrev files : ℕ → Bytes
files gen = if gen == 1 then segment_bytes two_appends ++ [] else segment_bytes one_pop ++ torn_tail

lost_append_parts : event_bytes lost_append ≡ torn_tail ++ drop 5 (event_bytes lost_append)
unfolding serialize_enqueue_event serialize_payload_event write_u32 u32_bytes write_u16 u16_bytes
lost_append_parts = refl

two_appends-IsStored : IsStored files 492 [] two_appends
unfolding serialize_segment_header serialize_enqueue_event serialize_payload_event write_u32
    u32_bytes write_u16 u16_bytes
two_appends-IsStored = record {
  stored = refl;
  fit = ((omega arith, omega arith, omega arith), ((omega arith, omega arith, omega arith), tt));
  generation_small = omega arith;
  start_small = omega arith;
  readable = omega arith;
}

one_pop-IsStored : IsStored files 492 torn_tail one_pop
unfolding serialize_segment_header serialize_pop_event write_u32 u32_bytes write_u16 u16_bytes
one_pop-IsStored = record {
  stored = refl;
  fit = ((omega arith, tt, tt), tt);
  generation_small = omega arith;
  start_small = omega arith;
  readable = omega arith;
}

scan_log-recovers_example :
    (t : ReplayState) × (scan_log 492 (files_of files (two_appends ∷ one_pop ∷ [])) 0 fresh
      ≡ some (40, t))
    × (contents files t.records
        ≡ queue_after [] (
            LogEvent.enqueue 0 (104 ∷ [])
            ∷ LogEvent.enqueue 1 (105 ∷ 106 ∷ [])
            ∷ LogEvent.pop 0
            ∷ []))
    × (t.next_sequence
        ≡ numbers_after 0 (
            LogEvent.enqueue 0 (104 ∷ [])
            ∷ LogEvent.enqueue 1 (105 ∷ 106 ∷ [])
            ∷ LogEvent.pop 0
            ∷ []))
scan_log-recovers_example =
    scan_log-recovers files 492 (two_appends ∷ []) one_pop torn_tail at_torn
      (cut lost_append 80 (81 ∷ 69 ∷ 81 ∷ 1 ∷ []) (drop 5 (event_bytes lost_append))
        (omega arith, omega arith, omega arith) lost_append_parts (omega arith))
      (two_appends-IsStored, tt) one_pop-IsStored

recovered_queue :
    queue_after []
      (LogEvent.enqueue 0 (104 ∷ []) ∷ LogEvent.enqueue 1 (105 ∷ 106 ∷ []) ∷ LogEvent.pop 0 ∷ [])
    ≡ (1, 105 ∷ 106 ∷ []) ∷ []
unfolding queue_after
recovered_queue = refl

find_event-torn_example : find_event 492 torn_tail ≡ torn
find_event-torn_example =
    find_event-torn 492 lost_append torn_tail (drop 5 (event_bytes lost_append))
      (omega arith, omega arith, omega arith) lost_append_parts (omega arith)

find-event_bytes_example :
    find_event 492 (event_bytes (LogEvent.pop 7) ++ (1 ∷ 2 ∷ [])) ≡ found_of (LogEvent.pop 7)
find-event_bytes_example = find-event_bytes 492 (LogEvent.pop 7) (1 ∷ 2 ∷ []) (omega arith, tt, tt)

abbrev one_event : ℕ → Bytes
one_event gen = event_bytes (LogEvent.enqueue 3 (9 ∷ [])) ++ []

contents-apply_found_example :
    contents one_event (apply_found true 5 0 (found_of (LogEvent.enqueue 3 (9 ∷ []))) fresh).records
    ≡ (3, 9 ∷ []) ∷ []
contents-apply_found_example =
    contents-apply_found one_event 492 true 5 0 (LogEvent.enqueue 3 (9 ∷ [])) fresh []
      (omega arith, omega arith, omega arith) refl
