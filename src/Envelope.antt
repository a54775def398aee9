-- ===== src/Envelope.antt =====
-- The envelope of a queued payload, src/pqueue/envelope.cpp: a header with the number of attempts,
-- the payload and a checksum by a table of its own.
pub mod Checksum
pub mod RoundTrip
use pqueue.Base.{
  ℕ, ◌+◌, ◌-◌, ◌*◌, ◌/◌, ◌%◌, ◌^◌, ◌≡◌, Bool, true, false, not, ◌&&◌, List, [], ◌∷◌, ◌++◌, Option,
  none, some, bit_and, bit_or, bit_xor, ltb, ◌==◌, if◌then◌else◌, ◌>>=◌, ◌>>◌, guard, length,
  get_or, take, drop,
}
use pqueue.Bytes.{Bytes}
use pqueue.Crc.{not_u32, repeat, table_from}
use pqueue.LogFormat.{to_u32}
use pqueue.Codec.{append_byte, append_little_endian32, read_byte, read_little_endian32}

abbrev pub outbox_envelope_magic : ℕ
outbox_envelope_magic = 0x5051_4f42

abbrev pub outbox_envelope_version : ℕ
outbox_envelope_version = 1

abbrev pub outbox_envelope_header_size : ℕ
outbox_envelope_header_size = 10

abbrev pub checksum_size : ℕ
checksum_size = 4

-- `value = (value >> 1) ^ (0xEDB88320U & (0U - (value & 1U)))`
unfoldable pub masked_bit : ℕ → ℕ
masked_bit value =
    bit_xor (value / 2) (bit_and 0xedb8_8320 ((0x1_0000_0000 - bit_and value 1) % 2 ^ 32))

unfoldable pub crc32_table : List ℕ
unfolding masked_bit repeat table_from
crc32_table = table_from (repeat 8 masked_bit) 256 0

-- `checksum = (checksum >> 8) ^ crc32Table()[(checksum ^ cursor[i]) & 0xffU]`
unfoldable pub checksum_byte : ℕ → ℕ → ℕ
unfolding crc32_table
checksum_byte checksum byte =
    bit_xor (checksum / 2 ^ 8) (get_or crc32_table (bit_and (bit_xor checksum byte) 0xff) 0)

unfoldable pub checksum_loop : ℕ → Bytes → ℕ
checksum_loop checksum [] = checksum
checksum_loop checksum (byte ∷ bytes) = checksum_loop (checksum_byte checksum byte) bytes

unfoldable pub crc32 : Bytes → ℕ
unfolding checksum_loop checksum_byte
crc32 bytes = not_u32 (checksum_loop 0xffff_ffff bytes)

abbrev checksum_matches : Option (ℕ × ℕ) → Bytes → ℕ → Bool
checksum_matches none encoded checksum_offset = false
checksum_matches (some (stored, offset)) encoded checksum_offset =
    (offset == length encoded) && (stored == crc32 (take checksum_offset encoded))

-- The last four bytes are the checksum of the others. A size below the header's and the checksum's
-- returns early, so the subtraction does not stop at 0.
unfoldable pub has_valid_checksum : Bytes → Bool
unfolding read_little_endian32 crc32
has_valid_checksum encoded =
    if ltb (length encoded) (outbox_envelope_header_size + checksum_size)
    then false
    else let checksum_offset = length encoded - checksum_size in
      checksum_matches (read_little_endian32 encoded checksum_offset) encoded checksum_offset

-- The bytes before the checksum.
unfoldable pub envelope_body : ℕ → Bytes → Bytes
unfolding append_byte append_little_endian32
envelope_body attempts payload =
    let encoded = append_little_endian32 [] outbox_envelope_magic in
    let encoded = append_byte encoded outbox_envelope_version in
    let encoded = append_byte encoded attempts in
    let encoded = append_little_endian32 encoded (to_u32 (length payload)) in encoded ++ payload

unfoldable pub encode_envelope : ℕ → Bytes → Option Bytes
unfolding envelope_body append_little_endian32 crc32
encode_envelope attempts payload =
    if ltb 0xffff_ffff (length payload)
    then none
    else let encoded = envelope_body attempts payload in
      some (append_little_endian32 encoded (crc32 encoded))

pub record DecodedEnvelope : Type 0 where
  pub attempts : ℕ
  pub payload : Bytes

-- Each guard is the negation of a `return false` in the source.
unfoldable pub decode_envelope : Bytes → Option DecodedEnvelope
unfolding has_valid_checksum read_little_endian32 read_byte
decode_envelope encoded = do
  guard (has_valid_checksum encoded)
  let payload_end = length encoded - checksum_size
  (magic, offset) ← read_little_endian32 encoded 0
  (version, offset) ← read_byte encoded offset
  (attempts, offset) ← read_byte encoded offset
  (payload_length, offset) ← read_little_endian32 encoded offset
  guard (magic == outbox_envelope_magic && version == outbox_envelope_version)
  guard (offset + payload_length == payload_end)
  some (record { attempts = attempts; payload = take payload_length (drop offset encoded) })
