-- ===== src/Http/RoundTrip.antt =====
-- Encoded requests, and those of version 1, as they are decoded.
use pqueue.Base.{
  ℕ, ◌+◌, ◌≡◌, refl, sym, ap, ◌∙◌, true, [], ◌∷◌, ◌++◌, some, arith, length, take, drop,
  append_assoc, append-nil, length-append, take-append_length, drop-append_length, drop-add,
  le→not_ltb, ◌>>=◌,
}
use pqueue.Bytes.{Bytes, IsU16, IsU32, u16_bytes, u32_bytes}
use pqueue.LogFormat.{to_u32}
use pqueue.Manifest.{to_u16}
use pqueue.Codec.{append_byte, append_little_endian16, append_little_endian32}
use pqueue.Codec.Laws.{
  append_little_endian16_lem, append_little_endian32_lem, read_little_endian32_at,
  read_little_endian16_at, read_byte_at,
}
use pqueue.Http.{
  RequestEnvelope, http_request_envelope_magic, method_post, encoding_is_supported, request_header,
  encode_request_envelope, decode_encoding, decode_request_envelope,
}

-- The lengths, the path and the body.
abbrev rest : Bytes → Bytes → Bytes
rest path body = u16_bytes (length path) ++ (u32_bytes (length body) ++ (path ++ body))

abbrev pub version2 : ℕ → Bytes → Bytes → Bytes
version2 encoding path body = 0x52 ∷ 0x48 ∷ 0x51 ∷ 0x50 ∷ 2 ∷ 1 ∷ encoding ∷ rest path body

-- The layout of version 1, which the encoder no longer writes.
abbrev pub version1 : Bytes → Bytes → Bytes
version1 path body = 0x52 ∷ 0x48 ∷ 0x51 ∷ 0x50 ∷ 1 ∷ 1 ∷ rest path body

module _ (path body : Bytes) (hp : IsU16 (length path)) (hb : IsU32 (length body)) where
  length-rest : length (rest path body) ≡ 6 + (length path + length body)
  length-rest = unfold u16_bytes u32_bytes in omega (arith, length-append path body)

  -- The end of the decoder, behind the encoding: `o` is the cursor.
  module _ (encoded : Bytes) (o : ℕ) (at : drop o encoded ≡ rest path body)
      (size : length encoded ≡ o + 6 + (length path + length body)) where
    path_length_at : drop (o + 2) encoded ≡ u32_bytes (length body) ++ (path ++ body)
    path_length_at = drop-add o 2 encoded ∙ ap (drop 2) at ∙ (unfold u16_bytes in refl)

    path_at : drop (o + 2 + 4) encoded ≡ path ++ body
    path_at = drop-add (o + 2) 4 encoded ∙ ap (drop 4) path_length_at ∙ (unfold u32_bytes in refl)

    body_at : drop (o + 2 + 4 + length path) encoded ≡ body
    body_at =
        drop-add (o + 2 + 4) (length path) encoded
        ∙ ap (drop (length path)) path_at
        ∙ drop-append_length path body

  all_taken : (bytes : Bytes) → take (length bytes) bytes ≡ bytes
  all_taken bytes = ap (take (length bytes)) (sym (append-nil bytes)) ∙ take-append_length bytes []

  decode-version2 :
      (encoding : ℕ)
      → encoding_is_supported encoding ≡ true
      → decode_request_envelope (version2 encoding path body)
        ≡ some (record { method = method_post; encoding = encoding; path = path; body = body })
  unfolding decode_request_envelope decode_encoding
  decode-version2 encoding h =
      let encoded = version2 encoding path body in
      ground (
        arith,
        h,
        length-rest,
        read_little_endian32_at encoded 0 http_request_envelope_magic
            (2 ∷ 1 ∷ encoding ∷ rest path body) (omega arith) (unfold u32_bytes in refl),
        read_byte_at encoded 4 2 (1 ∷ encoding ∷ rest path body) refl,
        read_byte_at encoded 5 1 (encoding ∷ rest path body) refl,
        read_byte_at encoded 6 encoding (rest path body) refl,
        read_little_endian16_at encoded 7 (length path) (u32_bytes (length body) ++ (path ++ body))
            hp refl,
        read_little_endian32_at encoded 9 (length body) (path ++ body) hb
            (path_length_at encoded 7 refl (omega (arith, length-rest))),
        path_at encoded 7 refl (omega (arith, length-rest)),
        body_at encoded 7 refl (omega (arith, length-rest)),
        take-append_length path body,
        all_taken body,
      )

  -- A stored request of version 1 is decoded to a request with a raw body.
  pub decode_request_envelope-version1 :
      decode_request_envelope (version1 path body)
      ≡ some (record { method = method_post; encoding = 0; path = path; body = body })
  unfolding decode_request_envelope decode_encoding
  decode_request_envelope-version1 =
      let encoded = version1 path body in
      ground (
        arith,
        length-rest,
        read_little_endian32_at encoded 0 http_request_envelope_magic (1 ∷ 1 ∷ rest path body)
            (omega arith) (unfold u32_bytes in refl),
        read_byte_at encoded 4 1 (1 ∷ rest path body) refl,
        read_byte_at encoded 5 1 (rest path body) refl,
        read_little_endian16_at encoded 6 (length path) (u32_bytes (length body) ++ (path ++ body))
            hp refl,
        read_little_endian32_at encoded 8 (length body) (path ++ body) hb
            (path_length_at encoded 6 refl (omega (arith, length-rest))),
        path_at encoded 6 refl (omega (arith, length-rest)),
        body_at encoded 6 refl (omega (arith, length-rest)),
        take-append_length path body,
        all_taken body,
      )

abbrev start : ℕ → Bytes
start encoding = 0x52 ∷ 0x48 ∷ 0x51 ∷ 0x50 ∷ 2 ∷ 1 ∷ encoding ∷ []

abbrev pub request : ℕ → Bytes → Bytes → RequestEnvelope
request encoding path body = record {
  method = method_post;
  encoding = encoding;
  path = path;
  body = body;
}

request_header-parts :
    (encoding : ℕ) (path body : Bytes)
    → IsU16 (length path)
    → IsU32 (length body)
    → request_header (request encoding path body)
      ≡ (start encoding ++ u16_bytes (length path)) ++ u32_bytes (length body)
unfolding request_header append_byte append_little_endian32
request_header-parts encoding path body hp hb =
    append_little_endian32_lem (append_little_endian16 (start encoding) (to_u16 (length path)))
      (to_u32 (length body))
    ∙ ap (λ t. t ++ u32_bytes (to_u32 (length body)))
        (append_little_endian16_lem (start encoding) (to_u16 (length path)))
    ∙ ap (λ n. (start encoding ++ u16_bytes n) ++ u32_bytes (to_u32 (length body))) small_path
    ∙ ap (λ n. (start encoding ++ u16_bytes (length path)) ++ u32_bytes n) small_body
  where
    small_path : to_u16 (length path) ≡ length path
    small_path = omega (arith, hp)

    small_body : to_u32 (length body) ≡ length body
    small_body = omega (arith, hb)

encode_request_envelope-some :
    (encoding : ℕ) (path body : Bytes)
    → IsU16 (length path)
    → IsU32 (length body)
    → encoding_is_supported encoding ≡ true
    → encode_request_envelope (request encoding path body) ≡ some (version2 encoding path body)
unfolding encode_request_envelope
encode_request_envelope-some encoding path body hp hb h =
    rw
      (
        h,
        le→not_ltb 0xffff (length path) (omega (arith, hp)),
        le→not_ltb 0xffff_ffff (length body) (omega (arith, hb)),
      )
      (ap some (
        ap (λ t. (t ++ path) ++ body) (request_header-parts encoding path body hp hb)
        ∙ append_assoc ((start encoding ++ u16_bytes (length path)) ++ u32_bytes (length body)) path
            body
        ∙ append_assoc (start encoding ++ u16_bytes (length path)) (u32_bytes (length body))
            (path ++ body)
        ∙ append_assoc (start encoding) (u16_bytes (length path))
            (u32_bytes (length body) ++ (path ++ body))))

-- A request whose path and body have lengths below 2^16 and 2^32 is encoded, and decoding gives it
-- back, with either encoding of its body.
pub decode-encode_request_envelope :
    (encoding : ℕ) (path body : Bytes)
    → IsU16 (length path)
    → IsU32 (length body)
    → encoding_is_supported encoding ≡ true
    → (encode_request_envelope (request encoding path body) >>= decode_request_envelope)
      ≡ some (request encoding path body)
decode-encode_request_envelope encoding path body hp hb h =
    rw (encode_request_envelope-some encoding path body hp hb h)
      (decode-version2 path body hp hb encoding h)
