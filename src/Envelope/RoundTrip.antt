-- ===== src/Envelope/RoundTrip.antt =====
-- An envelope that was encoded is decoded to the attempts and the payload.
use pqueue.Base.{
  ℕ, ◌+◌, ◌^◌, ◌≤◌, ◌<◌, ◌≡◌, refl, sym, ap, ◌∙◌, true, [], ◌∷◌, ◌++◌, some, arith, length, take,
  drop, append_assoc, append-nil, length-append, take-append_length, drop-append_length, le→not_ltb,
  ◌-◌, ◌>>=◌,
}
use pqueue.Bytes.{Bytes, IsU32, u32_bytes}
use pqueue.Bytes.Laws.{length-u32_bytes}
use pqueue.Crc.Reference.{crc32-IsU32}
use pqueue.Codec.{read_little_endian32, append_byte, append_little_endian32}
use pqueue.Codec.Laws.{append_little_endian32_lem, read_little_endian32_at, read_byte_at}
use pqueue.LogFormat.{to_u32}
use pqueue.Envelope
use pqueue.Envelope.{
  DecodedEnvelope, checksum_size, outbox_envelope_magic, outbox_envelope_version, envelope_body,
  encode_envelope, decode_envelope, has_valid_checksum,
}
use pqueue.Envelope.Checksum.{crc32_agree}

-- The parts of an envelope that `rest` closes, the magic number's bytes first.
abbrev parts : ℕ → Bytes → Bytes → Bytes
parts attempts payload rest =
    0x42
    ∷ 0x4f
    ∷ 0x51
    ∷ 0x50
    ∷ outbox_envelope_version
    ∷ attempts
    ∷ (u32_bytes (length payload) ++ (payload ++ rest))

abbrev checksum : ℕ → Bytes → ℕ
checksum attempts payload = Envelope.crc32 (envelope_body attempts payload)

to_u32-small : (n : ℕ) → n < 2 ^ 32 → to_u32 n ≡ n
to_u32-small n h = omega arith

abbrev header : ℕ → Bytes
header attempts = 0x42 ∷ 0x4f ∷ 0x51 ∷ 0x50 ∷ outbox_envelope_version ∷ attempts ∷ []

envelope_body-parts :
    (attempts : ℕ) (payload : Bytes)
    → length payload < 2 ^ 32
    → envelope_body attempts payload ≡ header attempts ++ (u32_bytes (length payload) ++ payload)
unfolding envelope_body append_byte append_little_endian32
envelope_body-parts attempts payload h =
    ap (λ t. t ++ payload) (append_little_endian32_lem (header attempts) (to_u32 (length payload)))
    ∙ ap (λ n. header attempts ++ (u32_bytes n ++ payload)) (to_u32-small (length payload) h)

checksum-IsU32 : (attempts : ℕ) (payload : Bytes) → IsU32 (checksum attempts payload)
checksum-IsU32 attempts payload =
    rw (crc32_agree (envelope_body attempts payload))
      (crc32-IsU32 0 (envelope_body attempts payload) (omega arith))

-- What is written for a payload whose length fits.
abbrev pub written : ℕ → Bytes → Bytes
written attempts payload = envelope_body attempts payload ++ u32_bytes (checksum attempts payload)

pub encode_envelope-some :
    (attempts : ℕ) (payload : Bytes)
    → length payload < 2 ^ 32
    → encode_envelope attempts payload ≡ some (written attempts payload)
unfolding encode_envelope
encode_envelope-some attempts payload h =
    rw (le→not_ltb 0xffff_ffff (length payload) (omega arith)) (
      ap some
        (append_little_endian32_lem (envelope_body attempts payload) (checksum attempts payload)))

has_valid_checksum-of :
    (bytes : Bytes) (o stored : ℕ)
    → length bytes ≡ o + 4
    → read_little_endian32 bytes o ≡ some (stored, o + 4)
    → stored ≡ Envelope.crc32 (take o bytes)
    → 10 ≤ o
    → has_valid_checksum bytes ≡ true
unfolding has_valid_checksum
has_valid_checksum-of bytes o stored size read same long =
    let at : length bytes - checksum_size ≡ o = omega (arith, size) in
    rw (le→not_ltb (length bytes) 14 (omega (arith, size)), at, read) (ground (arith, size, same))

module _ (attempts : ℕ) (payload : Bytes) (h : length payload < 2 ^ 32) where
  abbrev n : ℕ
  n = length payload

  abbrev c : ℕ
  c = checksum attempts payload

  whole : written attempts payload ≡ parts attempts payload (u32_bytes c)
  whole =
      ap (λ t. t ++ u32_bytes c) (envelope_body-parts attempts payload h)
      ∙ ap (λ t. header attempts ++ t) (append_assoc (u32_bytes n) payload (u32_bytes c))

  length-body : length (envelope_body attempts payload) ≡ 10 + n
  length-body =
      ap length (envelope_body-parts attempts payload h) ∙ (unfold u32_bytes in omega arith)

  length-written : length (written attempts payload) ≡ 14 + n
  length-written = omega (
    arith,
    length-append (envelope_body attempts payload) (u32_bytes c),
    length-body,
    length-u32_bytes c,
  )

  checksum_at : drop (10 + n) (written attempts payload) ≡ u32_bytes c ++ []
  checksum_at =
      ap (λ k. drop k (written attempts payload)) (sym length-body)
      ∙ drop-append_length (envelope_body attempts payload) (u32_bytes c)
      ∙ sym (append-nil (u32_bytes c))

  body_taken : take (10 + n) (written attempts payload) ≡ envelope_body attempts payload
  body_taken =
      ap (λ k. take k (written attempts payload)) (sym length-body)
      ∙ take-append_length (envelope_body attempts payload) (u32_bytes c)

  has_checksum : has_valid_checksum (written attempts payload) ≡ true
  has_checksum =
      has_valid_checksum-of (written attempts payload) (10 + n) c (omega (arith, length-written))
        (read_little_endian32_at (written attempts payload) (10 + n) c []
          (checksum-IsU32 attempts payload) checksum_at)
        (ap Envelope.crc32 (sym body_taken)) (omega (arith, length-written))

  payload_at : drop 10 (written attempts payload) ≡ payload ++ u32_bytes c
  payload_at = ap (drop 10) whole ∙ (unfold u32_bytes in refl)

  -- What is written for a payload decodes to the number of attempts and the payload.
  pub decode_envelope-written :
      decode_envelope (written attempts payload)
      ≡ some (record { attempts = attempts; payload = payload })
  unfolding decode_envelope
  decode_envelope-written = ground (
    arith,
    has_checksum,
    length-written,
    read_little_endian32_at (written attempts payload) 0 outbox_envelope_magic
        (outbox_envelope_version ∷ attempts ∷ (u32_bytes n ++ (payload ++ u32_bytes c)))
        (omega arith) (unfold u32_bytes in whole),
    read_byte_at (written attempts payload) 4 outbox_envelope_version
        (attempts ∷ (u32_bytes n ++ (payload ++ u32_bytes c))) (ap (drop 4) whole),
    read_byte_at (written attempts payload) 5 attempts (u32_bytes n ++ (payload ++ u32_bytes c))
        (ap (drop 5) whole),
    read_little_endian32_at (written attempts payload) 6 n (payload ++ u32_bytes c) h
        (ap (drop 6) whole),
    payload_at,
    take-append_length payload (u32_bytes c),
  )

-- A payload of a length below 2^32 is encoded, and decoding gives it back with its attempts.
pub decode-encode_envelope :
    (attempts : ℕ) (payload : Bytes)
    → length payload < 2 ^ 32
    → (encode_envelope attempts payload >>= decode_envelope)
      ≡ some (record { attempts = attempts; payload = payload })
decode-encode_envelope attempts payload h =
    rw (encode_envelope-some attempts payload h) (decode_envelope-written attempts payload h)
