-- ===== src/LogFormat.antt =====
-- The records of the append log, src/pqueue/append_log_common.h and append_log_common.cpp: segment
-- headers, and the ENQUEUE, REWRITE and POP events. A parser returns `none` where the source
-- returns false, and else the structure that it fills.
pub mod Headers
use pqueue.Base.{
  ℕ, ◌+◌, ◌%◌, ◌^◌, ◌≡◌, Bool, ◌&&◌, ◌||◌, List, [], ◌++◌, Option, none, some, ltb, ◌==◌,
  if◌then◌else◌, ◌>>=◌, check, length,
}
use pqueue.Bytes.{Bytes, write_u32, write_u16, read_u32, read_u16}
use pqueue.Crc.{crc32}

abbrev pub segment_magic : ℕ
segment_magic = 0x4753_5150

abbrev pub enqueue_magic : ℕ
enqueue_magic = 0x5145_5150

abbrev pub pop_magic : ℕ
pop_magic = 0x4550_5150

abbrev pub rewrite_magic : ℕ
rewrite_magic = 0x4552_5150

abbrev pub footer_magic : ℕ
footer_magic = 0x214b_4f50

abbrev pub format_version : ℕ
format_version = 1

abbrev pub segment_header_bytes : ℕ
segment_header_bytes = 20

abbrev pub enqueue_header_bytes : ℕ
enqueue_header_bytes = 16

abbrev pub pop_event_bytes : ℕ
pop_event_bytes = 20

abbrev pub event_trailer_bytes : ℕ
event_trailer_bytes = 8

abbrev pub enqueue_overhead_bytes : ℕ
enqueue_overhead_bytes = enqueue_header_bytes + event_trailer_bytes

pub record SegmentHeader : Type 0 where
  pub magic : ℕ
  pub version : ℕ
  pub header_bytes : ℕ
  pub generation : ℕ
  pub start_seq : ℕ
  pub header_crc : ℕ

pub record EnqueueHeader : Type 0 where
  pub magic : ℕ
  pub version : ℕ
  pub header_bytes : ℕ
  pub sequence : ℕ
  pub payload_bytes : ℕ

pub record PopEvent : Type 0 where
  pub magic : ℕ
  pub version : ℕ
  pub header_bytes : ℕ
  pub sequence : ℕ
  pub event_crc : ℕ
  pub footer : ℕ

-- `static_cast<std::uint32_t>`
abbrev pub to_u32 : ℕ → ℕ
to_u32 n = n % 2 ^ 32

unfoldable pub segment_header_crc : SegmentHeader → ℕ
segment_header_crc h = crc32 0 (
    write_u32
      (write_u32 (write_u16 (write_u16 (write_u32 [] h.magic) h.version) h.header_bytes)
        h.generation)
      h.start_seq)

unfoldable pub pop_event_crc : PopEvent → ℕ
pop_event_crc e =
    crc32 0
      (write_u32 (write_u16 (write_u16 (write_u32 [] e.magic) e.version) e.header_bytes) e.sequence)

unfoldable pub enqueue_event_crc : EnqueueHeader → Bytes → ℕ
enqueue_event_crc h payload = crc32 0 (
    write_u32
      (write_u32 (write_u16 (write_u16 (write_u32 [] h.magic) h.version) h.header_bytes) h.sequence)
      h.payload_bytes
    ++ payload)

unfoldable pub serialize_segment_header : ℕ → ℕ → Bytes
serialize_segment_header generation start_seq =
    let h : SegmentHeader = record {
      magic = segment_magic;
      version = format_version;
      header_bytes = segment_header_bytes;
      generation = generation;
      start_seq = start_seq;
      header_crc = 0;
    } in
    let buf = write_u32 [] h.magic in
    let buf = write_u16 buf h.version in
    let buf = write_u16 buf h.header_bytes in
    let buf = write_u32 buf h.generation in
    let buf = write_u32 buf h.start_seq in write_u32 buf (segment_header_crc h)

unfoldable pub parse_segment_header : Bytes → Option SegmentHeader
parse_segment_header bytes = if ltb (length bytes) segment_header_bytes then none else do
  magic ← read_u32 bytes 0
  version ← read_u16 bytes 4
  header_bytes ← read_u16 bytes 6
  generation ← read_u32 bytes 8
  start_seq ← read_u32 bytes 12
  header_crc ← read_u32 bytes 16
  let out : SegmentHeader = record {
    magic = magic;
    version = version;
    header_bytes = header_bytes;
    generation = generation;
    start_seq = start_seq;
    header_crc = header_crc;
  }
  check
      (magic == segment_magic
        && version == format_version
        && header_bytes == segment_header_bytes
        && header_crc == segment_header_crc out)
      out

-- `serializeEnqueueEvent` and `serializeRewriteEvent`, which differ in the magic number.
unfoldable pub serialize_payload_event : ℕ → ℕ → Bytes → Bytes
serialize_payload_event magic sequence payload =
    let h : EnqueueHeader = record {
      magic = magic;
      version = format_version;
      header_bytes = enqueue_header_bytes;
      sequence = sequence;
      payload_bytes = to_u32 (length payload);
    } in
    let crc = enqueue_event_crc h payload in
    let buf = write_u32 [] h.magic in
    let buf = write_u16 buf h.version in
    let buf = write_u16 buf h.header_bytes in
    let buf = write_u32 buf h.sequence in
    let buf = write_u32 buf h.payload_bytes in
    let buf = buf ++ payload in let buf = write_u32 buf crc in write_u32 buf footer_magic

unfoldable pub serialize_enqueue_event : ℕ → Bytes → Bytes
unfolding serialize_payload_event
serialize_enqueue_event sequence payload = serialize_payload_event enqueue_magic sequence payload

unfoldable pub serialize_rewrite_event : ℕ → Bytes → Bytes
unfolding serialize_payload_event
serialize_rewrite_event sequence payload = serialize_payload_event rewrite_magic sequence payload

unfoldable pub serialize_pop_event : ℕ → Bytes
serialize_pop_event sequence =
    let p : PopEvent = record {
      magic = pop_magic;
      version = format_version;
      header_bytes = pop_event_bytes;
      sequence = sequence;
      event_crc = 0;
      footer = footer_magic;
    } in
    let buf = write_u32 [] p.magic in
    let buf = write_u16 buf p.version in
    let buf = write_u16 buf p.header_bytes in
    let buf = write_u32 buf p.sequence in
    let buf = write_u32 buf (pop_event_crc p) in write_u32 buf p.footer

unfoldable pub parse_enqueue_header : Bytes → Option EnqueueHeader
parse_enqueue_header bytes = if ltb (length bytes) enqueue_header_bytes then none else do
  magic ← read_u32 bytes 0
  version ← read_u16 bytes 4
  header_bytes ← read_u16 bytes 6
  sequence ← read_u32 bytes 8
  payload_bytes ← read_u32 bytes 12
  check
      ((magic == enqueue_magic || magic == rewrite_magic)
        && version == format_version
        && header_bytes == enqueue_header_bytes)
      (record {
        magic = magic;
        version = version;
        header_bytes = header_bytes;
        sequence = sequence;
        payload_bytes = payload_bytes;
      })

unfoldable pub parse_pop_event : Bytes → Option PopEvent
parse_pop_event bytes = if ltb (length bytes) pop_event_bytes then none else do
  magic ← read_u32 bytes 0
  version ← read_u16 bytes 4
  header_bytes ← read_u16 bytes 6
  sequence ← read_u32 bytes 8
  event_crc ← read_u32 bytes 12
  footer ← read_u32 bytes 16
  let out : PopEvent = record {
    magic = magic;
    version = version;
    header_bytes = header_bytes;
    sequence = sequence;
    event_crc = event_crc;
    footer = footer;
  }
  check
      (magic == pop_magic
        && version == format_version
        && header_bytes == pop_event_bytes
        && footer == footer_magic
        && event_crc == pop_event_crc out)
      out
