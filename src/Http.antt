-- ===== src/Http.antt =====
-- The envelope of a stored HTTP request, src/pqueue/http/request_envelope.cpp: a header of version 2
-- with the encoding of the body, or of version 1 without, then the path and the body. The methods
-- and the encodings are the numbers of their enumerators.
pub mod RoundTrip
pub mod Sending
pub mod Classes
pub mod Posted
pub mod Submit
use pqueue.Base.{
  ℕ, ◌+◌, ◌-◌, ◌%◌, ◌^◌, Bool, true, false, not, ◌&&◌, ◌||◌, [], ◌++◌, Option, none, some, ltb,
  ◌==◌, if◌then◌else◌, ◌>>=◌, ◌>>◌, guard, length, take, drop,
}
use pqueue.Bytes.{Bytes}
use pqueue.LogFormat.{to_u32}
use pqueue.Manifest.{to_u16}
use pqueue.Codec.{
  append_byte, append_little_endian16, append_little_endian32, read_byte, read_little_endian16,
  read_little_endian32,
}

abbrev pub http_request_envelope_magic : ℕ
http_request_envelope_magic = 0x5051_4852

abbrev pub http_request_envelope_version : ℕ
http_request_envelope_version = 2

abbrev pub http_request_envelope_v1 : ℕ
http_request_envelope_v1 = 1

abbrev pub method_post : ℕ
method_post = 1

abbrev pub encoding_raw : ℕ
encoding_raw = 0

abbrev pub encoding_compact : ℕ
encoding_compact = 1

-- `RequestEnvelope`
pub record RequestEnvelope : Type 0 where
  pub method : ℕ
  pub encoding : ℕ
  pub path : Bytes
  pub body : Bytes

unfoldable pub encoding_is_supported : ℕ → Bool
encoding_is_supported encoding = encoding == encoding_raw || encoding == encoding_compact

-- The bytes in front of the path.
unfoldable pub request_header : RequestEnvelope → Bytes
unfolding append_byte append_little_endian16 append_little_endian32
request_header request =
    let encoded = append_little_endian32 [] http_request_envelope_magic in
    let encoded = append_byte encoded http_request_envelope_version in
    let encoded = append_byte encoded request.method in
    let encoded = append_byte encoded request.encoding in
    let encoded = append_little_endian16 encoded (to_u16 (length request.path)) in
    append_little_endian32 encoded (to_u32 (length request.body))

unfoldable pub encode_request_envelope : RequestEnvelope → Option Bytes
unfolding encoding_is_supported request_header
encode_request_envelope request = do
  guard (request.method == method_post)
  guard (encoding_is_supported request.encoding)
  guard (not (ltb 0xffff (length request.path)))
  guard (not (ltb 0xffff_ffff (length request.body)))
  some ((request_header request ++ request.path) ++ request.body)

-- The encoding byte, which version 1 does not have, and the cursor behind it.
unfoldable pub decode_encoding : ℕ → Bytes → ℕ → Option (ℕ × ℕ)
unfolding encoding_is_supported read_byte
decode_encoding version encoded offset =
    let second = (do
      (encoding, offset) ← read_byte encoded offset
      guard (encoding_is_supported encoding)
      some (encoding, offset)) in
    if version == http_request_envelope_v1
    then some (encoding_raw, offset)
    else if version == http_request_envelope_version
    then second
    else none

-- Each guard is the negation of a `return false` in the source.
unfoldable pub decode_request_envelope : Bytes → Option RequestEnvelope
unfolding read_byte read_little_endian16 read_little_endian32 decode_encoding
decode_request_envelope encoded = do
  (magic, offset) ← read_little_endian32 encoded 0
  (version, offset) ← read_byte encoded offset
  (method, offset) ← read_byte encoded offset
  guard (magic == http_request_envelope_magic && method == method_post)
  (encoding, offset) ← decode_encoding version encoded offset
  (path_length, offset) ← read_little_endian16 encoded offset
  (body_length, offset) ← read_little_endian32 encoded offset
  guard (not (ltb (length encoded - offset) path_length))
  let path = take path_length (drop offset encoded)
  let offset = offset + path_length
  guard (not (ltb (length encoded - offset) body_length))
  let body = take body_length (drop offset encoded)
  guard (offset + body_length == length encoded)
  some (record { method = method; encoding = encoding; path = path; body = body })
