-- ===== src/Crc/Reference.antt =====
-- The table-driven checksum against the bit-by-bit division that it stands for.
use pqueue.Base.{
  ℕ, zero, suc, ◌+◌, ◌*◌, ◌/◌, ◌%◌, ◌^◌, ◌<◌, ◌≡◌, refl, sym, ap, ◌∙◌, [], ◌∷◌, bit_and, bit_xor,
  ◌==◌, if◌then◌else◌, get_or, arith, inl, inr, Bool-cases,
}
use pqueue.Base.Bits.{
  byte_mask, bit_xor_comm, bit_xor_assoc, bit_xor-lt, bit_xor_halves, bit_xor_disjoint, bit_and-one,
  bit_xor-zero, bit_xor-div,
}
use mathlib.Core.Path.{ap₂}
use native.Mathlib.Nat.{pow-suc}
use pqueue.Bytes.{Bytes, AreBytes, IsU32}
use pqueue.Crc.{not_u32, crc_bit, repeat, table_from, crc_table, crc_byte, crc_loop, crc32}

-- The specification: each byte is added to the remainder, which is then divided bit by bit.
abbrev pub remainder : ℕ → Bytes → ℕ
remainder r [] = r
remainder r (b ∷ bs) = remainder (repeat 8 crc_bit (bit_xor r b)) bs

get_or-table_from : (f : ℕ → ℕ) (n i j : ℕ) → j < n → get_or (table_from f n i) j 0 ≡ f (i + j)
unfolding table_from
get_or-table_from f zero i j h = elim h [ ]
get_or-table_from f (suc n) i zero h = ap f (omega arith)
get_or-table_from f (suc n) i (suc j) h =
    get_or-table_from f n (i + 1) j (omega arith) ∙ ap f (omega arith)

-- A bit step splits over an exclusive or with an even number.
crc_bit-xor_even : (x y : ℕ) → crc_bit (bit_xor x (y * 2)) ≡ bit_xor (crc_bit x) y
unfolding crc_bit
crc_bit-xor_even x y =
    rw (high, low)
      (bit_xor_assoc (x / 2) y t
        ∙ ap (bit_xor (x / 2)) (bit_xor_comm y t)
        ∙ sym (bit_xor_assoc (x / 2) t y))
  where
    t : ℕ
    t = if bit_and x 1 == 1 then 0xedb8_8320 else 0

    high : bit_xor x (y * 2) / 2 ^ 1 ≡ bit_xor (x / 2 ^ 1) y
    high = (bit_xor_halves x (y * 2)).0 ∙ ap (bit_xor (x / 2)) (omega arith)

    low : bit_and (bit_xor x (y * 2)) 1 ≡ bit_and x 1
    low =
        omega (arith, bit_and-one (bit_xor x (y * 2)), bit_and-one x, (bit_xor_halves x (y * 2)).1)

crc_bits-xor :
    (k x y : ℕ) → repeat k crc_bit (bit_xor x (y * 2 ^ k)) ≡ bit_xor (repeat k crc_bit x) y
unfolding repeat
crc_bits-xor zero x y = ap (bit_xor x) (omega arith)
crc_bits-xor (suc k) x y =
    ap (λ t. repeat k crc_bit (crc_bit (bit_xor x t)))
      (omega (arith, ap (λ t. y * t) (pow-suc 2 k)))
    ∙ ap (repeat k crc_bit) (crc_bit-xor_even x (y * 2 ^ k))
    ∙ crc_bits-xor k (crc_bit x) y

table_entry : (x : ℕ) → get_or crc_table (bit_and x 0xff) 0 ≡ repeat 8 crc_bit (x % 256)
unfolding crc_table
table_entry x =
    ap (λ t. get_or crc_table t 0) (byte_mask x)
    ∙ get_or-table_from (repeat 8 crc_bit) 256 0 (x % 256) (omega arith)
    ∙ ap (repeat 8 crc_bit) (omega arith)

-- One table step divides by one byte.
pub crc_byte-bits : (c b : ℕ) → b < 256 → crc_byte c b ≡ repeat 8 crc_bit (bit_xor c b)
unfolding crc_byte crc_table
crc_byte-bits c b h =
    ap₂ bit_xor (table_entry x) shifted
    ∙ sym (crc_bits-xor 8 (x % 256) (x / 256))
    ∙ ap (repeat 8 crc_bit) (bit_xor_disjoint 8 (x % 256) (x / 256) (omega arith) ∙ omega arith)
  where
    x : ℕ
    x = bit_xor c b

    shifted : c / 2 ^ 8 ≡ x / 256
    shifted =
        sym (bit_xor-zero (c / 256))
        ∙ ap (bit_xor (c / 256)) (omega arith)
        ∙ sym (bit_xor-div 8 c b)

crc_loop-remainder : (c : ℕ) (bs : Bytes) → AreBytes bs → crc_loop c bs ≡ remainder c bs
unfolding crc_loop
crc_loop-remainder c [] h = refl
crc_loop-remainder c (b ∷ bs) (hb, h) =
    crc_loop-remainder (crc_byte c b) bs h ∙ ap (λ t. remainder t bs) (crc_byte-bits c b hb)

-- The table-driven checksum of any bytes is the bit-by-bit remainder, complemented at both ends.
pub crc32-remainder :
    (crc : ℕ) (bs : Bytes) → AreBytes bs → crc32 crc bs ≡ not_u32 (remainder (not_u32 crc) bs)
unfolding crc32
crc32-remainder crc bs h = ap not_u32 (crc_loop-remainder (not_u32 crc) bs h)

crc_bit-IsU32 : (c : ℕ) → IsU32 c → IsU32 (crc_bit c)
unfolding crc_bit
crc_bit-IsU32 c h = elim (Bool-cases (bit_and c 1 == 1)) [
  | inl e ↦ rw e (bit_xor-lt 32 (c / 2 ^ 1) 0xedb8_8320 (omega arith) (omega arith))
  | inr e ↦ rw e (bit_xor-lt 32 (c / 2 ^ 1) 0 (omega arith) (omega arith))
]

repeat-IsU32 : (k c : ℕ) → IsU32 c → IsU32 (repeat k crc_bit c)
unfolding repeat
repeat-IsU32 zero c h = h
repeat-IsU32 (suc k) c h = repeat-IsU32 k (crc_bit c) (crc_bit-IsU32 c h)

crc_byte-IsU32 : (c p : ℕ) → IsU32 c → IsU32 (crc_byte c p)
unfolding crc_byte
crc_byte-IsU32 c p h =
    bit_xor-lt 32 _ (c / 2 ^ 8)
      (rw (table_entry (bit_xor c p)) (repeat-IsU32 8 (bit_xor c p % 256) (omega arith)))
      (omega arith)

crc_loop-IsU32 : (c : ℕ) (bs : Bytes) → IsU32 c → IsU32 (crc_loop c bs)
unfolding crc_loop
crc_loop-IsU32 c [] h = h
crc_loop-IsU32 c (b ∷ bs) h = crc_loop-IsU32 (crc_byte c b) bs (crc_byte-IsU32 c b h)

-- A checksum fits 32 bits.
pub crc32-IsU32 : (crc : ℕ) (bs : Bytes) → IsU32 crc → IsU32 (crc32 crc bs)
unfolding crc32
crc32-IsU32 crc bs h =
    bit_xor-lt 32 _ 0xffff_ffff
      (crc_loop-IsU32 (not_u32 crc) bs (bit_xor-lt 32 crc 0xffff_ffff h (omega arith)))
      (omega arith)
