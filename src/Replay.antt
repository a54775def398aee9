-- ===== src/Replay.antt =====
-- The replay of segment files when the store mounts: the loop over the events of a segment in
-- AppendLogStore::scanSegments, src/pqueue/append_log_store/store.cpp. The bytes of each segment
-- are given; the store reads them from the file system. The sequence counter is written without
-- its wrap-around at 2^32, which no accepted sequence number reaches.
pub mod Events
pub mod Decode
pub mod Torn
pub mod Contents
pub mod Segments
pub mod Recovery
pub mod Restore
use pqueue.Base.{
  ℕ, zero, suc, ◌+◌, ◌-◌, min, ◌≡◌, Bool, true, false, not, ◌&&◌, ◌||◌, List, [], ◌∷◌, ◌++◌, Option,
  none, some, ltb, ◌==◌, if◌then◌else◌, length, take, drop,
}
use pqueue.Bytes.{Bytes, join_u32, byte_at, read_u32}
use pqueue.LogFormat.{
  segment_header_bytes, enqueue_header_bytes, pop_event_bytes, event_trailer_bytes, footer_magic,
  enqueue_magic, rewrite_magic, pop_magic, to_u32, EnqueueHeader, PopEvent, SegmentHeader,
  enqueue_event_crc, parse_segment_header, parse_enqueue_header, parse_pop_event,
}

pub record SegmentRecord : Type 0 where
  pub sequence : ℕ
  pub segment_generation : ℕ
  pub payload_offset : ℕ
  pub payload_bytes : ℕ

-- What the scan finds at an offset. An event comes with the bytes that it takes up.
pub data Found : Type 0 where
  torn : Found
  corrupt : Found
  enqueue rewrite : ℕ → ℕ → ℕ → Found
  pop : ℕ → ℕ → Found

-- `buf.substr(offset, count)`
abbrev pub substr : Bytes → ℕ → ℕ → Bytes
substr buf offset count = take count (drop offset buf)

-- `readLE32`
pub read_le32 : Bytes → ℕ → ℕ
read_le32 buf offset =
    join_u32 (byte_at buf offset) (byte_at buf (offset + 1)) (byte_at buf (offset + 2))
      (byte_at buf (offset + 3))

-- The branch for ENQUEUE and REWRITE, behind the check of the header's length. `rest` is the
-- segment from the event on.
unfoldable pub find_payload_event : ℕ → Bytes → EnqueueHeader → Found
unfolding read_le32
find_payload_event max_record_bytes rest eh =
    if ltb max_record_bytes eh.payload_bytes
    then corrupt
    else (let total_event_bytes =
          to_u32 (enqueue_header_bytes + eh.payload_bytes + event_trailer_bytes) in
        let payload_and_trailer =
          substr rest enqueue_header_bytes (to_u32 (eh.payload_bytes + event_trailer_bytes)) in
        let payload = take eh.payload_bytes payload_and_trailer in
        if ltb (length rest) total_event_bytes
        then torn
        else if ltb (length payload_and_trailer) (to_u32 (eh.payload_bytes + event_trailer_bytes))
        then torn
        else if read_le32 payload_and_trailer eh.payload_bytes == enqueue_event_crc eh payload
            && read_le32 payload_and_trailer (eh.payload_bytes + 4) == footer_magic
        then if eh.magic == enqueue_magic
          then enqueue eh.sequence eh.payload_bytes total_event_bytes
          else rewrite eh.sequence eh.payload_bytes total_event_bytes
        else corrupt)

-- `!parseEnqueueHeader(headerBuf, eh)`
unfoldable pub find_with_header : ℕ → Bytes → Option EnqueueHeader → Found
unfolding find_payload_event
find_with_header max_record_bytes rest none = corrupt
find_with_header max_record_bytes rest (some eh) = find_payload_event max_record_bytes rest eh

unfoldable pub find_pop : Option PopEvent → Found
find_pop none = corrupt
find_pop (some pe) = pop pe.sequence pop_event_bytes

-- One round of the loop, up to the change of state. `rest` is the segment from `offset` on.
unfoldable pub find_event : ℕ → Bytes → Found
unfolding find_with_header find_pop read_le32
find_event max_record_bytes rest =
    let to_read = min (length rest) enqueue_header_bytes in
    let header_buf = take to_read rest in
    let magic = read_le32 header_buf 0 in
    if ltb (length rest) 4
    then torn
    else if ltb (length header_buf) 4
    then torn
    else if magic == enqueue_magic || magic == rewrite_magic
    then if ltb to_read enqueue_header_bytes
      then torn
      else find_with_header max_record_bytes rest (parse_enqueue_header header_buf)
    else if magic == pop_magic
    then if ltb (length rest) pop_event_bytes
      then torn
      else find_pop (parse_pop_event (take pop_event_bytes rest))
    else corrupt

-- `records_`, `nextSequence_` and `tailAffectedGens` during the scan.
pub record ReplayState : Type 0 where
  pub records : List SegmentRecord
  pub next_sequence : ℕ
  pub tail_affected : List ℕ

-- Insertion into an unordered set.
unfoldable pub set_insert : ℕ → List ℕ → List ℕ
set_insert g [] = g ∷ []
set_insert g (x ∷ xs) = if x == g then x ∷ xs else x ∷ set_insert g xs

-- The first record of a sequence number is replaced.
unfoldable pub replace_record : SegmentRecord → List SegmentRecord → List SegmentRecord
replace_record sr [] = []
replace_record sr (r ∷ rs) = if r.sequence == sr.sequence then sr ∷ rs else r ∷ replace_record sr rs

-- The generation of the first record of a sequence number.
unfoldable pub find_generation : ℕ → List SegmentRecord → Option ℕ
find_generation seq [] = none
find_generation seq (r ∷ rs) =
    if r.sequence == seq then some r.segment_generation else find_generation seq rs

-- A record goes in front of the first whose sequence number is not smaller.
unfoldable pub insert_record : SegmentRecord → List SegmentRecord → List SegmentRecord
insert_record sr [] = sr ∷ []
insert_record sr (r ∷ rs) =
    if ltb r.sequence sr.sequence then r ∷ insert_record sr rs else sr ∷ (r ∷ rs)

-- `if (seq + 1 > nextSequence_) nextSequence_ = seq + 1`, on 32 bits.
unfoldable pub advance : ℕ → ℕ → ℕ
advance next seq = let after = to_u32 (seq + 1) in if ltb next after then after else next

abbrev affect : Bool → ℕ → List ℕ → List ℕ
affect true gen gens = set_insert gen gens
affect false gen gens = gens

unfoldable pub apply_rewrite : Bool → SegmentRecord → Option ℕ → ReplayState → ReplayState
unfolding replace_record insert_record set_insert
apply_rewrite is_last sr none s = record s { records = insert_record sr s.records }
apply_rewrite is_last sr (some gen) s = record s {
  records = replace_record sr s.records;
  tail_affected = affect is_last gen s.tail_affected;
}

unfoldable pub apply_pop : Bool → ℕ → List SegmentRecord → ReplayState → ReplayState
unfolding set_insert
apply_pop is_last seq [] s = s
apply_pop is_last seq (r ∷ rs) s =
    if r.sequence == seq
    then record s {
      records = rs;
      tail_affected = affect is_last r.segment_generation s.tail_affected;
    }
    else s

unfoldable pub record_at : ℕ → ℕ → ℕ → ℕ → SegmentRecord
record_at gen offset seq payload_bytes = record {
  sequence = seq;
  segment_generation = gen;
  payload_offset = offset + enqueue_header_bytes;
  payload_bytes = payload_bytes;
}

-- The change of state that an event at `offset` of segment `gen` makes.
unfoldable pub apply_found : Bool → ℕ → ℕ → Found → ReplayState → ReplayState
unfolding apply_rewrite apply_pop advance record_at find_generation
apply_found is_last gen offset torn s = s
apply_found is_last gen offset corrupt s = s
apply_found is_last gen offset (enqueue seq bytes total) s = record s {
  records = s.records ++ (record_at gen offset seq bytes ∷ []);
  next_sequence = advance s.next_sequence seq;
}
apply_found is_last gen offset (rewrite seq bytes total) s =
    record (apply_rewrite is_last (record_at gen offset seq bytes) (find_generation seq s.records)
      s) { next_sequence = advance s.next_sequence seq }
apply_found is_last gen offset (pop seq total) s = record (apply_pop is_last seq s.records s) {
  next_sequence = advance s.next_sequence seq;
}

-- How the loop ended, at which offset. `out_of_fuel` is no exit of the source.
pub data ScanExit : Type 0 where
  at_end at_torn at_corrupt out_of_fuel : ScanExit

abbrev pub Scanned : Type 0
Scanned = ScanExit × ℕ × ReplayState

-- The end of a round: the loop stops, or goes on behind the event.
unfoldable pub end_round :
    (ℕ → ReplayState → Scanned) → Bool → ℕ → ℕ → Found → ReplayState → Scanned
unfolding apply_found
end_round next is_last gen offset torn s = (at_torn, offset, s)
end_round next is_last gen offset corrupt s = (at_corrupt, offset, s)
end_round next is_last gen offset (enqueue seq bytes total) s =
    next (offset + total) (apply_found is_last gen offset (enqueue seq bytes total) s)
end_round next is_last gen offset (rewrite seq bytes total) s =
    next (offset + total) (apply_found is_last gen offset (rewrite seq bytes total) s)
end_round next is_last gen offset (pop seq total) s =
    next (offset + total) (apply_found is_last gen offset (pop seq total) s)

-- `while (offset < fileSize)`; `offset` and `lastGoodOffset` are equal at the head of each round.
unfoldable pub scan_events : ℕ → ℕ → Bool → ℕ → Bytes → ℕ → ReplayState → Scanned
unfolding end_round find_event
scan_events zero max_record_bytes is_last gen seg_buf offset s = (out_of_fuel, offset, s)
scan_events (suc fuel) max_record_bytes is_last gen seg_buf offset s =
    if ltb offset (length seg_buf)
    then end_round (scan_events fuel max_record_bytes is_last gen seg_buf) is_last gen offset
        (find_event max_record_bytes (drop offset seg_buf)) s
    else (at_end, offset, s)
