-- ===== src/LogFormat/Headers.antt =====
-- Segment headers and pop events: what is written is read back, and nothing else is accepted.
use pqueue.Base.{
  ℕ, ◌+◌, ◌^◌, ◌<◌, ◌≡◌, refl, ap, ◌∙◌, [], ◌++◌, some, arith, length, drop, append_assoc,
}
use mathlib.Core.Path.{ap₂}
use pqueue.Bytes.{
  Bytes, AreBytes, IsU32, u32_bytes, u16_bytes, write_u32, write_u16, read_u32, read_u16,
}
use pqueue.Bytes.Laws.{read_u32_at, read_u16_at, read_u32-drop, read_u16-drop}
use pqueue.Crc.Reference.{crc32-IsU32}
use pqueue.LogFormat.{
  SegmentHeader, PopEvent, segment_magic, pop_magic, footer_magic, format_version,
  segment_header_bytes, pop_event_bytes, segment_header_crc, pop_event_crc,
  serialize_segment_header, parse_segment_header, serialize_pop_event, parse_pop_event,
}

-- Six fields of 4, 2, 2, 4, 4 and 4 bytes, which segment headers and pop events share.
unfoldable pub fields : ℕ → ℕ → ℕ → ℕ → ℕ → ℕ → Bytes
fields a b c d e f =
    u32_bytes a ++ (u16_bytes b ++ (u16_bytes c ++ (u32_bytes d ++ (u32_bytes e ++ u32_bytes f))))

module _ (a b c d e f : ℕ) (rest : Bytes) where
  fields-reads :
      IsU32 a
      → b < 2 ^ 16
      → c < 2 ^ 16
      → IsU32 d
      → IsU32 e
      → IsU32 f
      → let bytes = fields a b c d e f ++ rest in
        (read_u32 bytes 0 ≡ some a)
        × (read_u16 bytes 4 ≡ some b)
        × (read_u16 bytes 6 ≡ some c)
        × (read_u32 bytes 8 ≡ some d)
        × (read_u32 bytes 12 ≡ some e)
        × (read_u32 bytes 16 ≡ some f)
        × (length bytes ≡ 20 + length rest)
  unfolding fields u32_bytes u16_bytes
  fields-reads ha hb hc hd he hf = (
    read_u32_at [] a _ 0 ha refl,
    read_u16_at (u32_bytes a) b _ 4 hb refl,
    read_u16_at (u32_bytes a ++ u16_bytes b) c _ 6 hc refl,
    read_u32_at (u32_bytes a ++ (u16_bytes b ++ u16_bytes c)) d _ 8 hd refl,
    read_u32_at (u32_bytes a ++ (u16_bytes b ++ (u16_bytes c ++ u32_bytes d))) e _ 12 he refl,
    read_u32_at (u32_bytes a ++ (u16_bytes b ++ (u16_bytes c ++ (u32_bytes d ++ u32_bytes e)))) f _
        16 hf refl,
    omega arith,
  )

abbrev segment_header : ℕ → ℕ → ℕ → SegmentHeader
segment_header generation start_seq crc = record {
  magic = segment_magic;
  version = format_version;
  header_bytes = segment_header_bytes;
  generation = generation;
  start_seq = start_seq;
  header_crc = crc;
}

abbrev pub header_of : ℕ → ℕ → SegmentHeader
header_of generation start_seq =
    segment_header generation start_seq (segment_header_crc (segment_header generation start_seq 0))

pub serialize_segment_header-fields :
    (g s : ℕ)
    → serialize_segment_header g s
      ≡ fields segment_magic format_version segment_header_bytes g s (header_of g s).header_crc
unfolding serialize_segment_header fields write_u32 write_u16 u32_bytes u16_bytes
serialize_segment_header-fields g s = refl

segment_header_crc-IsU32 : (h : SegmentHeader) → IsU32 (segment_header_crc h)
unfolding segment_header_crc
segment_header_crc-IsU32 h = crc32-IsU32 0 _ (omega arith)

-- A segment header that was written parses, whatever follows it, to the header with its generation
-- and start sequence.
pub parse-serialize_segment_header :
    (generation start_seq : ℕ) (rest : Bytes)
    → IsU32 generation
    → IsU32 start_seq
    → parse_segment_header (serialize_segment_header generation start_seq ++ rest)
      ≡ some (header_of generation start_seq)
unfolding parse_segment_header
parse-serialize_segment_header g s rest hg hs = rw (serialize_segment_header-fields g s) (
    ground (
      arith,
      fields-reads segment_magic format_version segment_header_bytes g s (header_of g s).header_crc
          rest (omega arith) (omega arith) (omega arith) hg hs (segment_header_crc-IsU32 _),
      crc_field,
    ))
  where
    crc_field : segment_header_crc (header_of g s) ≡ (header_of g s).header_crc
    crc_field = unfold segment_header_crc in refl

module _ (a b c d e f : ℕ) (bytes : Bytes) where
  -- Bytes from which the six fields are read begin with the six fields.
  reads-fields :
      AreBytes bytes
      → (read_u32 bytes 0 ≡ some a)
        × (read_u16 bytes 4 ≡ some b)
        × (read_u16 bytes 6 ≡ some c)
        × (read_u32 bytes 8 ≡ some d)
        × (read_u32 bytes 12 ≡ some e)
        × (read_u32 bytes 16 ≡ some f)
      → (bytes ≡ fields a b c d e f ++ drop 20 bytes) × IsU32 d × IsU32 e
  unfolding fields
  reads-fields h (ra, rb, rc, rd, re, rf) =
      let (_, pa, _) = read_u32-drop bytes 0 4 a h refl ra in
      let (_, pb, _) = read_u16-drop bytes 4 6 b h refl rb in
      let (_, pc, _) = read_u16-drop bytes 6 8 c h refl rc in
      let (hd, pd, _) = read_u32-drop bytes 8 12 d h refl rd in
      let (he, pe, _) = read_u32-drop bytes 12 16 e h refl re in
      let (_, pf, _) = read_u32-drop bytes 16 20 f h refl rf in
      (pa ∙ simp (pb, pc, pd, pe, pf, append_assoc) refl, hd, he)

parse_segment_header_inv :
    (bytes : Bytes) (h : SegmentHeader)
    → parse_segment_header bytes ≡ some h
    → ((read_u32 bytes 0 ≡ some h.magic)
        × (read_u16 bytes 4 ≡ some h.version)
        × (read_u16 bytes 6 ≡ some h.header_bytes)
        × (read_u32 bytes 8 ≡ some h.generation)
        × (read_u32 bytes 12 ≡ some h.start_seq)
        × (read_u32 bytes 16 ≡ some h.header_crc))
      × (h.magic ≡ segment_magic)
      × (h.version ≡ format_version)
      × (h.header_bytes ≡ segment_header_bytes)
      × (h.header_crc ≡ segment_header_crc h)
unfolding parse_segment_header
parse_segment_header_inv bytes h e = ground arith

header_crc-of_fields :
    (h : SegmentHeader)
    → h.magic ≡ segment_magic
    → h.version ≡ format_version
    → h.header_bytes ≡ segment_header_bytes
    → segment_header_crc h ≡ (header_of h.generation h.start_seq).header_crc
unfolding segment_header_crc
header_crc-of_fields h m v b = rw (m, v, b) refl

-- Bytes that parse as a segment header begin with what is written for the parsed generation and
-- start sequence, which are 32-bit numbers.
pub parse_segment_header_canonical :
    (bytes : Bytes) (h : SegmentHeader)
    → AreBytes bytes
    → parse_segment_header bytes ≡ some h
    → (bytes ≡ serialize_segment_header h.generation h.start_seq ++ drop 20 bytes)
      × IsU32 h.generation
      × IsU32 h.start_seq
parse_segment_header_canonical bytes h ok e =
    let (reads, m, v, b, c) = parse_segment_header_inv bytes h e in
    let (same, hg, hs) =
      reads-fields h.magic h.version h.header_bytes h.generation h.start_seq h.header_crc bytes ok
        reads in
    let c' = c ∙ header_crc-of_fields h m v b in
    (
      same
          ∙ rw (serialize_segment_header-fields h.generation h.start_seq) (
              ap₂ (λ t u. t ++ u)
                (ap₂ (λ x y. fields x y h.header_bytes h.generation h.start_seq h.header_crc) m v
                  ∙ ap₂ (λ x y. fields segment_magic format_version x h.generation h.start_seq y) b
                      c')
                refl),
      hg,
      hs,
    )

abbrev pop_record : ℕ → ℕ → PopEvent
pop_record sequence crc = record {
  magic = pop_magic;
  version = format_version;
  header_bytes = pop_event_bytes;
  sequence = sequence;
  event_crc = crc;
  footer = footer_magic;
}

abbrev pub pop_of : ℕ → PopEvent
pop_of sequence = pop_record sequence (pop_event_crc (pop_record sequence 0))

pub serialize_pop_event-fields :
    (s : ℕ)
    → serialize_pop_event s
      ≡ fields pop_magic format_version pop_event_bytes s (pop_of s).event_crc footer_magic
unfolding serialize_pop_event fields write_u32 write_u16 u32_bytes u16_bytes
serialize_pop_event-fields s = refl

pop_event_crc-IsU32 : (p : PopEvent) → IsU32 (pop_event_crc p)
unfolding pop_event_crc
pop_event_crc-IsU32 p = crc32-IsU32 0 _ (omega arith)

-- A pop event that was written parses, whatever follows it, to the event with its sequence.
pub parse-serialize_pop_event :
    (sequence : ℕ) (rest : Bytes)
    → IsU32 sequence
    → parse_pop_event (serialize_pop_event sequence ++ rest) ≡ some (pop_of sequence)
unfolding parse_pop_event
parse-serialize_pop_event s rest hs = rw (serialize_pop_event-fields s) (
    ground (
      arith,
      fields-reads pop_magic format_version pop_event_bytes s (pop_of s).event_crc footer_magic rest
          (omega arith) (omega arith) (omega arith) hs (pop_event_crc-IsU32 _) (omega arith),
      crc_field,
    ))
  where
    crc_field : pop_event_crc (pop_of s) ≡ (pop_of s).event_crc
    crc_field = unfold pop_event_crc in refl

parse_pop_event_inv :
    (bytes : Bytes) (p : PopEvent)
    → parse_pop_event bytes ≡ some p
    → ((read_u32 bytes 0 ≡ some p.magic)
        × (read_u16 bytes 4 ≡ some p.version)
        × (read_u16 bytes 6 ≡ some p.header_bytes)
        × (read_u32 bytes 8 ≡ some p.sequence)
        × (read_u32 bytes 12 ≡ some p.event_crc)
        × (read_u32 bytes 16 ≡ some p.footer))
      × (p.magic ≡ pop_magic)
      × (p.version ≡ format_version)
      × (p.header_bytes ≡ pop_event_bytes)
      × (p.footer ≡ footer_magic)
      × (p.event_crc ≡ pop_event_crc p)
unfolding parse_pop_event
parse_pop_event_inv bytes p e = ground arith

event_crc-of_fields :
    (p : PopEvent)
    → p.magic ≡ pop_magic
    → p.version ≡ format_version
    → p.header_bytes ≡ pop_event_bytes
    → pop_event_crc p ≡ (pop_of p.sequence).event_crc
unfolding pop_event_crc
event_crc-of_fields p m v b = rw (m, v, b) refl

-- Bytes that parse as a pop event begin with what is written for the parsed sequence.
pub parse_pop_event_canonical :
    (bytes : Bytes) (p : PopEvent)
    → AreBytes bytes
    → parse_pop_event bytes ≡ some p
    → (bytes ≡ serialize_pop_event p.sequence ++ drop 20 bytes) × IsU32 p.sequence
parse_pop_event_canonical bytes p ok e =
    let (reads, m, v, b, f, c) = parse_pop_event_inv bytes p e in
    let (same, hs, _) =
      reads-fields p.magic p.version p.header_bytes p.sequence p.event_crc p.footer bytes ok
        reads in
    let c' = c ∙ event_crc-of_fields p m v b in
    (
      same
          ∙ rw (serialize_pop_event-fields p.sequence) (
              ap₂ (λ t u. t ++ u)
                (ap₂ (λ x y. fields x y p.header_bytes p.sequence p.event_crc p.footer) m v
                  ∙ ap₂ (λ x y. fields pop_magic format_version x p.sequence y p.footer) b c'
                  ∙ ap (fields pop_magic format_version pop_event_bytes p.sequence _) f)
                refl),
      hs,
    )

pub length-fields : (a b c d e f : ℕ) → length (fields a b c d e f) ≡ 20
unfolding fields u32_bytes u16_bytes
length-fields a b c d e f = refl
