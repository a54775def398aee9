-- ===== src/Codec.antt =====
-- The byte writers and readers of src/pqueue/envelope.cpp, which src/pqueue/http/request_envelope.cpp
-- repeats: loops over the bytes of an integer, with a cursor that moves.
pub mod Laws
use pqueue.Base.{
  ℕ, zero, suc, ◌+◌, ◌*◌, ◌/◌, ◌^◌, [], ◌∷◌, ◌++◌, Option, none, some, bit_and, bit_or, ltb,
  if◌then◌else◌, length, get_or,
}
use pqueue.Bytes.{Bytes}

-- `encoded.push_back(static_cast<char>(value))`
unfoldable pub append_byte : Bytes → ℕ → Bytes
append_byte encoded value = encoded ++ (value ∷ [])

-- The rounds `byte`, `byte + 1`, … of a writing loop, `n` of them.
unfoldable pub append_rounds : ℕ → ℕ → Bytes → ℕ → Bytes
append_rounds zero byte encoded value = encoded
append_rounds (suc n) byte encoded value =
    append_rounds n (byte + 1) (encoded ++ (bit_and (value / 2 ^ (8 * byte)) 0xff ∷ [])) value

unfoldable pub append_little_endian32 : Bytes → ℕ → Bytes
unfolding append_rounds
append_little_endian32 encoded value = append_rounds 4 0 encoded value

unfoldable pub append_little_endian16 : Bytes → ℕ → Bytes
unfolding append_rounds
append_little_endian16 encoded value = append_rounds 2 0 encoded value

unfoldable pub read_rounds : ℕ → ℕ → Bytes → ℕ → ℕ → ℕ
read_rounds zero byte encoded offset value = value
read_rounds (suc n) byte encoded offset value =
    read_rounds n (byte + 1) encoded offset
      (bit_or value (get_or encoded (offset + byte) 0 * 2 ^ (8 * byte)))

-- A read returns the value and the cursor behind it, or `none` for `return false`.
unfoldable pub read_byte : Bytes → ℕ → Option (ℕ × ℕ)
read_byte encoded offset =
    if ltb (length encoded) (offset + 1) then none else some (get_or encoded offset 0, offset + 1)

unfoldable pub read_little_endian32 : Bytes → ℕ → Option (ℕ × ℕ)
unfolding read_rounds
read_little_endian32 encoded offset =
    if ltb (length encoded) (offset + 4)
    then none
    else some (read_rounds 4 0 encoded offset 0, offset + 4)

unfoldable pub read_little_endian16 : Bytes → ℕ → Option (ℕ × ℕ)
unfolding read_rounds
read_little_endian16 encoded offset =
    if ltb (length encoded) (offset + 2)
    then none
    else some (read_rounds 2 0 encoded offset 0, offset + 2)
