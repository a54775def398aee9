-- ===== src/Examples/Formats.antt =====
-- Single headers, checksums, envelopes and names.
use pqueue.Base.{ℕ, ◌≡◌, refl, [], ◌∷◌, ◌++◌, some, arith, drop, ◌>>=◌, All-append}
use pqueue.Bytes.{Bytes, AreBytes, IsByte, IsU32, u32_bytes, u16_bytes}
use pqueue.Bytes.Laws.{u32_bytes-AreBytes, u16_bytes-AreBytes}
use pqueue.Crc
use pqueue.Crc.{not_u32}
use pqueue.Crc.Reference.{remainder, crc32-remainder}
use pqueue.LogFormat.{
  serialize_segment_header, parse_segment_header, serialize_pop_event, parse_pop_event,
}
use pqueue.LogFormat.Headers.{
  header_of, pop_of, fields, serialize_segment_header-fields, serialize_pop_event-fields,
  parse-serialize_segment_header, parse_segment_header_canonical, parse-serialize_pop_event,
  parse_pop_event_canonical,
}
use pqueue.Envelope
use pqueue.Envelope.{encode_envelope, decode_envelope}
use pqueue.Envelope.Checksum.{crc32_agree}
use pqueue.Envelope.RoundTrip.{decode-encode_envelope}
use pqueue.Store.Names.{segment_name, is_segment_name}
use pqueue.Store.NameLaws.{is_segment_name-segment_name}

abbrev digits : Bytes
digits = 49 ∷ 50 ∷ 51 ∷ []

crc32-remainder_example : Crc.crc32 0 digits ≡ not_u32 (remainder (not_u32 0) digits)
crc32-remainder_example = crc32-remainder 0 digits (omega arith, (omega arith, (omega arith, tt)))

known_checksum : Crc.crc32 0 digits ≡ 0x8848_63d2
unfolding Crc.crc32
known_checksum = refl

crc32_agree_example : Envelope.crc32 digits ≡ Crc.crc32 0 digits
crc32_agree_example = crc32_agree digits

parse-serialize_segment_header_example :
    parse_segment_header (serialize_segment_header 7 3 ++ digits) ≡ some (header_of 7 3)
parse-serialize_segment_header_example =
    parse-serialize_segment_header 7 3 digits (omega arith) (omega arith)

digits-AreBytes : AreBytes digits
digits-AreBytes = (omega arith, (omega arith, (omega arith, tt)))

fields-AreBytes : (a b c d e f : ℕ) → AreBytes (fields a b c d e f)
unfolding fields
fields-AreBytes a b c d e f = All-append IsByte (u32_bytes a) _ (u32_bytes-AreBytes a) (
    All-append IsByte (u16_bytes b) _ (u16_bytes-AreBytes b) (
      All-append IsByte (u16_bytes c) _ (u16_bytes-AreBytes c) (
        All-append IsByte (u32_bytes d) _ (u32_bytes-AreBytes d) (
          All-append IsByte (u32_bytes e) (u32_bytes f) (u32_bytes-AreBytes e)
            (u32_bytes-AreBytes f)))))

written_header-AreBytes : AreBytes (serialize_segment_header 7 3 ++ digits)
written_header-AreBytes =
    rw (serialize_segment_header-fields 7 3)
      (All-append IsByte _ digits (fields-AreBytes _ _ _ _ _ _) digits-AreBytes)

parse_segment_header_canonical_example :
    (serialize_segment_header 7 3 ++ digits
      ≡ serialize_segment_header 7 3 ++ drop 20 (serialize_segment_header 7 3 ++ digits))
    × IsU32 7
    × IsU32 3
parse_segment_header_canonical_example =
    parse_segment_header_canonical (serialize_segment_header 7 3 ++ digits) (header_of 7 3)
      written_header-AreBytes
      (parse-serialize_segment_header 7 3 digits (omega arith) (omega arith))

parse-serialize_pop_event_example :
    parse_pop_event (serialize_pop_event 9 ++ digits) ≡ some (pop_of 9)
parse-serialize_pop_event_example = parse-serialize_pop_event 9 digits (omega arith)

written_pop-AreBytes : AreBytes (serialize_pop_event 9 ++ digits)
written_pop-AreBytes =
    rw (serialize_pop_event-fields 9)
      (All-append IsByte _ digits (fields-AreBytes _ _ _ _ _ _) digits-AreBytes)

parse_pop_event_canonical_example :
    (serialize_pop_event 9 ++ digits
      ≡ serialize_pop_event 9 ++ drop 20 (serialize_pop_event 9 ++ digits))
    × IsU32 9
parse_pop_event_canonical_example =
    parse_pop_event_canonical (serialize_pop_event 9 ++ digits) (pop_of 9) written_pop-AreBytes
      (parse-serialize_pop_event 9 digits (omega arith))

decode-encode_envelope_example :
    (encode_envelope 2 digits >>= decode_envelope)
    ≡ some (record { attempts = 2; payload = digits })
decode-encode_envelope_example = decode-encode_envelope 2 digits (omega arith)

is_segment_name-segment_name_example : is_segment_name (segment_name 0xab) ≡ some 0xab
is_segment_name-segment_name_example = is_segment_name-segment_name 0xab (omega arith)
