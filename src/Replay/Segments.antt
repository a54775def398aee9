-- ===== src/Replay/Segments.antt =====
-- One segment of the replay, and the replay of all active segments in order, as in
-- AppendLogStore::scanSegments, src/pqueue/append_log_store/store.cpp. `none` is the status
-- DataCorrupt. The result holds `activeSegmentBytes_` of the last segment and the replayed state.
use pqueue.Base.{
  ℕ, ◌*◌, Bool, true, false, List, [], ◌∷◌, Option, none, some, ltb, ◌==◌, if◌then◌else◌, ◌||◌,
  ◌>>=◌, check, length, take,
}
use pqueue.Bytes.{Bytes}
use pqueue.LogFormat.{segment_header_bytes, parse_segment_header}
use pqueue.Replay.{ReplayState, at_end, at_torn, at_corrupt, out_of_fuel, Scanned, scan_events}

-- `kMaxReplaySegmentReadBytes`
abbrev pub max_replay_segment_read_bytes : ℕ
max_replay_segment_read_bytes = 256 * 1024

-- What follows the loop: a torn or corrupt end is cut off in the last segment only.
unfoldable pub finish_segment : Bool → Scanned → Option (ℕ × ReplayState)
finish_segment is_last (at_end, offset, s) = some (offset, s)
finish_segment is_last (at_torn, offset, s) = check is_last (offset, s)
finish_segment is_last (at_corrupt, offset, s) = check is_last (offset, s)
finish_segment is_last (out_of_fuel, offset, s) = none

-- Each event takes a byte at least, so the length of the segment is enough fuel.
unfoldable pub scan_segment : ℕ → Bool → ℕ → Bytes → ReplayState → Option (ℕ × ReplayState)
unfolding finish_segment
scan_segment max_record_bytes is_last gen seg_buf s =
    if ltb (length seg_buf) segment_header_bytes
      || ltb max_replay_segment_read_bytes (length seg_buf)
    then none
    else (do
      seg_header ← parse_segment_header (take segment_header_bytes seg_buf)
      if seg_header.generation == gen
          then finish_segment is_last (
              scan_events (length seg_buf) max_record_bytes is_last gen seg_buf segment_header_bytes
                s)
          else none)

abbrev pub is_empty : List (ℕ × Bytes) → Bool
is_empty [] = true
is_empty (x ∷ xs) = false

-- The loop over `activeGenerations_`, each with the bytes of its file.
unfoldable pub scan_log : ℕ → List (ℕ × Bytes) → ℕ → ReplayState → Option (ℕ × ReplayState)
unfolding scan_segment
scan_log max_record_bytes [] active_bytes s = some (active_bytes, s)
scan_log max_record_bytes ((gen, seg_buf) ∷ rest) active_bytes s = do
  (bytes, t) ← scan_segment max_record_bytes (is_empty rest) gen seg_buf s
  scan_log max_record_bytes rest bytes t

-- The state before the replay.
abbrev pub fresh : ReplayState
fresh = record { records = []; next_sequence = 0; tail_affected = [] }
