-- ===== src/Compaction/Output.antt =====
-- The output of a compaction, src/pqueue/append_log_store/compaction.cpp: the live records are read
-- and sorted, packed into segments, written, and put in place of the records in memory.
use pqueue.Base.{
  ℕ, ◌+◌, ◌-◌, ◌^◌, not, ◌&&◌, List, [], ◌∷◌, ◌++◌, Option, none, some, ltb, ◌==◌, if◌then◌else◌,
  length,
}
use pqueue.Bytes.{Bytes}
use pqueue.LogFormat.{
  segment_header_bytes, enqueue_header_bytes, to_u32, serialize_segment_header,
  serialize_enqueue_event,
}
use pqueue.Status.{Status, StatusCode, success, failure, is_ok}
use pqueue.FileSystem.{FileSystem}
use pqueue.Replay.{SegmentRecord, substr}
use pqueue.Store.{Store}
use pqueue.Store.Names.{segment_name}
use pqueue.Store.Tracked.{must_be_new, write_segment_file_tracked}
use pqueue.Append.{Outcome, and_then}
use pqueue.Compaction.{CompactionRange, within, find_sealed, size_or_zero, record_bytes}
use pqueue.Compaction.Plan.{is_nil, range_span}

pub record LiveRecord : Type 0 where
  pub sequence : ℕ
  pub payload : Bytes

-- The keys of `byGen`, in order and once each.
unfoldable pub add_key : ℕ → List ℕ → List ℕ
add_key g [] = g ∷ []
add_key g (x ∷ xs) =
    let rest = add_key g xs in if g == x then x ∷ xs else if ltb g x then g ∷ (x ∷ xs) else x ∷ rest

unfoldable pub keys_within : ℕ → ℕ → List SegmentRecord → List ℕ
unfolding add_key
keys_within start_gen end_gen [] = []
keys_within start_gen end_gen (r ∷ rs) =
    let rest = keys_within start_gen end_gen rs in
    if within start_gen end_gen r.segment_generation
    then add_key r.segment_generation rest
    else rest

-- The records of a generation, with their payloads out of its file. `none` is out of bounds.
unfoldable pub read_live : ℕ → Bytes → List SegmentRecord → Option (List LiveRecord)
read_live gen buf [] = some []
read_live gen buf (r ∷ rs) =
    let rest = read_live gen buf rs in
    if not (r.segment_generation == gen)
    then rest
    else if ltb (length buf) (to_u32 (r.payload_offset + r.payload_bytes))
    then none
    else elim rest [
      | none ↦ none
      | some out ↦ some (
          record { sequence = r.sequence; payload = substr buf r.payload_offset r.payload_bytes }
          ∷ out)
    ]

-- `std::sort` by sequence number; records in the store have distinct ones.
unfoldable pub insert_live : LiveRecord → List LiveRecord → List LiveRecord
insert_live r [] = r ∷ []
insert_live r (x ∷ xs) = if ltb x.sequence r.sequence then x ∷ insert_live r xs else r ∷ (x ∷ xs)

unfoldable pub sort_live : List LiveRecord → List LiveRecord
unfolding insert_live
sort_live [] = []
sort_live (r ∷ rs) = insert_live r (sort_live rs)

-- An output segment and the records that go into it.
pub record OutputSegment : Type 0 where
  pub generation : ℕ
  pub live : List LiveRecord

-- The vector `outputSegs` during the packing: its last element is open.
pub record Packing : Type 0 where
  pub closed : List OutputSegment
  pub gen : ℕ
  pub live : List LiveRecord
  pub seg_bytes : ℕ

abbrev pub live_size : LiveRecord → ℕ
live_size r = record_bytes (to_u32 (length r.payload))

abbrev pub open_segment : Packing → OutputSegment
open_segment p = record { generation = p.gen; live = p.live }

unfoldable pub pack_record : ℕ → Packing → LiveRecord → Packing
pack_record max_segment_bytes p r =
    if not (is_nil p.live) && ltb max_segment_bytes (to_u32 (p.seg_bytes + live_size r))
    then record {
      closed = p.closed ++ (open_segment p ∷ []);
      gen = to_u32 (p.gen + 1);
      live = r ∷ [];
      seg_bytes = to_u32 (segment_header_bytes + live_size r);
    }
    else record p { live = p.live ++ (r ∷ []); seg_bytes = to_u32 (p.seg_bytes + live_size r) }

unfoldable pub pack_loop : ℕ → Packing → List LiveRecord → Packing
unfolding pack_record
pack_loop max_segment_bytes p [] = p
pack_loop max_segment_bytes p (r ∷ rs) =
    pack_loop max_segment_bytes (pack_record max_segment_bytes p r) rs

abbrev pub first_packing : ℕ → Packing
first_packing gen = record { closed = []; gen = gen; live = []; seg_bytes = segment_header_bytes }

unfoldable pub pack_output : ℕ → ℕ → List LiveRecord → List OutputSegment
unfolding pack_loop
pack_output max_segment_bytes next_generation live =
    let p = pack_loop max_segment_bytes (first_packing next_generation) live in
    p.closed ++ (open_segment p ∷ [])

-- The bytes of the events, and the records that point to them, from `offset` on.
unfoldable pub output_events : List LiveRecord → Bytes
output_events [] = []
output_events (r ∷ rs) = serialize_enqueue_event r.sequence r.payload ++ output_events rs

unfoldable pub replacements_from : ℕ → ℕ → List LiveRecord → List SegmentRecord
replacements_from gen offset [] = []
replacements_from gen offset (r ∷ rs) =
    record {
      sequence = r.sequence;
      segment_generation = gen;
      payload_offset = to_u32 (offset + enqueue_header_bytes);
      payload_bytes = to_u32 (length r.payload);
    }
    ∷ replacements_from gen (to_u32 (offset + live_size r)) rs

abbrev pub front_sequence : List LiveRecord → ℕ
front_sequence [] = 0
front_sequence (r ∷ rs) = r.sequence

unfoldable pub output_bytes : OutputSegment → Bytes
unfolding output_events
output_bytes seg =
    serialize_segment_header seg.generation (front_sequence seg.live) ++ output_events seg.live

unfoldable pub replacements : List OutputSegment → List SegmentRecord
unfolding replacements_from
replacements [] = []
replacements (seg ∷ segs) =
    replacements_from seg.generation segment_header_bytes seg.live ++ replacements segs

-- The replacement of a record, if there is one.
unfoldable pub find_replacement : SegmentRecord → List SegmentRecord → SegmentRecord
find_replacement r [] = r
find_replacement r (rep ∷ reps) =
    if rep.sequence == r.sequence then rep else find_replacement r reps

unfoldable pub replace_records :
    CompactionRange → List SegmentRecord → List SegmentRecord → List SegmentRecord
unfolding find_replacement
replace_records range reps [] = []
replace_records range reps (r ∷ rs) =
    (if within range.start_gen range.end_gen r.segment_generation
      then find_replacement r reps
      else r)
    ∷ replace_records range reps rs

unfoldable pub erase_sealed : ℕ → List (ℕ × ℕ) → List (ℕ × ℕ)
erase_sealed gen [] = []
erase_sealed gen ((g, size) ∷ sizes) =
    if g == gen then erase_sealed gen sizes else (g, size) ∷ erase_sealed gen sizes

-- `activeTailAffectedGenerations_.erase(g)` for each generation of the range.
unfoldable pub forget_affected : CompactionRange → List ℕ → List ℕ
forget_affected range [] = []
forget_affected range (g ∷ gs) =
    if within range.start_gen range.end_gen g
    then forget_affected range gs
    else g ∷ forget_affected range gs

module _ (fs : FileSystem) where
  abbrev extend : List LiveRecord → Status × List LiveRecord → Status × List LiveRecord
  extend out (st, rest) = (st, out ++ rest)

  abbrev read_key :
      ℕ → List SegmentRecord → Status × Bytes → Status × List LiveRecord → Status × List LiveRecord
  read_key gen records (st, buf) rest =
      if not (is_ok st) then (st, []) else elim (read_live gen buf records) [
        | none ↦ (failure StatusCode.data_corrupt, [])
        | some out ↦ extend out rest
      ]

  unfoldable pub read_keys : List ℕ → List SegmentRecord → fs.State → Status × List LiveRecord
  unfolding read_live
  read_keys [] records s = (success, [])
  read_keys (gen ∷ gens) records s =
      read_key gen records (fs.read_file (segment_name gen) s) (read_keys gens records s)

  -- What is collected before a failure is not used.
  unfoldable pub collect_live_records :
      CompactionRange → Store → fs.State → Status × List LiveRecord
  unfolding read_keys keys_within sort_live
  collect_live_records range m s =
      let (st, out) = read_keys (keys_within range.start_gen range.end_gen m.records) m.records s in
      (st, sort_live out)

  unfoldable pub write_output : List OutputSegment → Store → fs.State → Outcome fs
  unfolding and_then output_bytes
  write_output [] m s = (success, m, s)
  write_output (seg ∷ segs) m s =
      and_then fs
        (write_segment_file_tracked fs (segment_name seg.generation) (output_bytes seg) must_be_new
          m s)
        (write_output segs)

  abbrev removed : ℕ → Store → Status × fs.State → Store × fs.State
  removed gen m (st, s) =
      if is_ok st
      then (
        record m {
          total_on_disk_bytes = to_u32 (
              m.total_on_disk_bytes
              + 2 ^ 32
              - size_or_zero (find_sealed gen m.sealed_segment_bytes));
          sealed_segment_bytes = erase_sealed gen m.sealed_segment_bytes;
        },
        s,
      )
      else (m, s)

  unfoldable pub remove_segments : List ℕ → Store → fs.State → Store × fs.State
  unfolding find_sealed erase_sealed
  remove_segments [] m s = (m, s)
  remove_segments (gen ∷ gens) m s =
      let (m', s') = removed gen m (fs.remove_file (segment_name gen) s) in
      remove_segments gens m' s'

  unfoldable pub cleanup_input_segments : CompactionRange → Store → fs.State → Store × fs.State
  unfolding remove_segments
  cleanup_input_segments range m s = remove_segments (range_span range.start_gen range.end_gen) m s
