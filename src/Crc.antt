-- ===== src/Crc.antt =====
-- The checksum of src/pqueue/append_log_common.cpp: CRC-32 by a table of 256 entries.
pub mod Reference
use pqueue.Base.{
  ℕ, zero, suc, ◌+◌, ◌%◌, List, [], ◌∷◌, ◌++◌, bit_and, bit_xor, ◌==◌, if◌then◌else◌, get_or,
}
use pqueue.Bytes.{Bytes, shr}

-- `~x` on 32 bits.
abbrev pub not_u32 : ℕ → ℕ
not_u32 x = bit_xor x 0xffff_ffff

-- `c = (c >> 1) ^ (c & 1u ? 0xEDB88320u : 0u)`
unfoldable pub crc_bit : ℕ → ℕ
crc_bit c = bit_xor (shr c 1) (if bit_and c 1 == 1 then 0xedb8_8320 else 0)

unfoldable pub repeat {ℓ} : {A : Type ℓ} → ℕ → (A → A) → A → A
repeat zero f a = a
repeat (suc n) f a = repeat n f (f a)

-- The entries `i`, `i + 1`, … of a table whose entry at `i` is `f i`.
unfoldable pub table_from : (ℕ → ℕ) → ℕ → ℕ → List ℕ
table_from f zero i = []
table_from f (suc n) i = f i ∷ table_from f n (i + 1)

unfoldable pub crc_table : List ℕ
unfolding crc_bit repeat table_from
crc_table = table_from (repeat 8 crc_bit) 256 0

-- `crc = kTable[(crc ^ *p++) & 0xFF] ^ (crc >> 8)`
unfoldable pub crc_byte : ℕ → ℕ → ℕ
unfolding crc_table
crc_byte crc p = bit_xor (get_or crc_table (bit_and (bit_xor crc p) 0xff) 0) (shr crc 8)

unfoldable pub crc_loop : ℕ → Bytes → ℕ
crc_loop crc [] = crc
crc_loop crc (p ∷ data_rest) = crc_loop (crc_byte crc p) data_rest

unfoldable pub crc32 : ℕ → Bytes → ℕ
unfolding crc_loop crc_byte
crc32 crc bytes = not_u32 (crc_loop (not_u32 crc) bytes)
