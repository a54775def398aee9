-- ===== src/Bytes.antt =====
-- Bytes and little-endian integers, as src/pqueue/append_log_common.cpp writes and reads them.
-- A byte string is a list of numbers below 256. A fixed-width integer is a number below its bound.
pub mod Laws
use pqueue.Base.{
  ℕ, suc, ◌+◌, ◌*◌, ◌/◌, ◌^◌, ◌<◌, List, [], ◌∷◌, ◌++◌, Option, none, some, bit_and, bit_or, ltb,
  if◌then◌else◌, length, get_or, All,
}

abbrev pub Bytes : Type 0
Bytes = List ℕ

abbrev pub IsByte : ℕ → Type 0
IsByte b = b < 256

abbrev pub AreBytes : Bytes → Type 0
AreBytes = All IsByte

abbrev pub IsU16 : ℕ → Type 0
IsU16 v = v < 2 ^ 16

abbrev pub IsU32 : ℕ → Type 0
IsU32 v = v < 2 ^ 32

-- `x >> k` and `x << k`, with no bit lost on the left.
abbrev pub shr : ℕ → ℕ → ℕ
shr x k = x / 2 ^ k

abbrev pub shl : ℕ → ℕ → ℕ
shl x k = x * 2 ^ k

-- The bytes that `writeU32` and `writeU16` push for a value, lowest first.
unfoldable pub u32_bytes : ℕ → Bytes
u32_bytes v =
    bit_and v 0xff ∷ bit_and (shr v 8) 0xff ∷ bit_and (shr v 16) 0xff ∷ bit_and (shr v 24) 0xff ∷ []

unfoldable pub u16_bytes : ℕ → Bytes
u16_bytes v = bit_and v 0xff ∷ bit_and (shr v 8) 0xff ∷ []

unfoldable pub write_u32 : Bytes → ℕ → Bytes
write_u32 buf v = buf ++ u32_bytes v

unfoldable pub write_u16 : Bytes → ℕ → Bytes
write_u16 buf v = buf ++ u16_bytes v

-- `b0 | b1 << 8 | b2 << 16 | b3 << 24`
unfoldable pub join_u32 : ℕ → ℕ → ℕ → ℕ → ℕ
join_u32 b0 b1 b2 b3 = bit_or (bit_or (bit_or b0 (shl b1 8)) (shl b2 16)) (shl b3 24)

unfoldable pub join_u16 : ℕ → ℕ → ℕ
join_u16 b0 b1 = bit_or b0 (shl b1 8)

unfoldable pub byte_at : Bytes → ℕ → ℕ
byte_at buf i = get_or buf i 0

-- `none` is the return value `false`.
unfoldable pub read_u32 : Bytes → ℕ → Option ℕ
read_u32 buf offset =
    if ltb (length buf) (offset + 4)
    then none
    else some (
        join_u32 (byte_at buf offset) (byte_at buf (offset + 1)) (byte_at buf (offset + 2))
          (byte_at buf (offset + 3)))

unfoldable pub read_u16 : Bytes → ℕ → Option ℕ
read_u16 buf offset =
    if ltb (length buf) (offset + 2)
    then none
    else some (join_u16 (byte_at buf offset) (byte_at buf (offset + 1)))
