-- ===== src/Codec/Laws.antt =====
-- The writers and readers with a cursor agree with those of the log.
use pqueue.Base.{
  ℕ, zero, suc, ◌+◌, ◌*◌, ◌/◌, ◌^◌, ◌≤◌, ◌≡◌, refl, ap, ◌∙◌, [], ◌∷◌, ◌++◌, some, bit_and, bit_or,
  ltb, length, get_or, drop, arith, append_assoc, Bool-cases, inl, inr,
}
use pqueue.Base.Bits.{zero-bit_or}
use pqueue.Bytes.{
  Bytes, IsU16, IsU32, u32_bytes, u16_bytes, read_u32, read_u16, join_u32, join_u16, byte_at,
}
use pqueue.Manifest.{le_u32, le_u16}
use pqueue.Manifest.Cursor.{le_u32_at, le_u16_at}
use pqueue.Codec.{
  append_rounds, append_little_endian32, append_little_endian16, read_rounds, read_byte,
  read_little_endian32, read_little_endian16,
}

div_one : (v : ℕ) → v / 1 ≡ v
div_one v = omega arith

pushed4 :
    (xs : Bytes) (a b c d : ℕ)
    → (((xs ++ (a ∷ [])) ++ (b ∷ [])) ++ (c ∷ [])) ++ (d ∷ []) ≡ xs ++ (a ∷ b ∷ c ∷ d ∷ [])
pushed4 [] a b c d = refl
pushed4 (x ∷ xs) a b c d = ap (λ t. x ∷ t) (pushed4 xs a b c d)

pub append_little_endian32_lem :
    (encoded : Bytes) (v : ℕ) → append_little_endian32 encoded v ≡ encoded ++ u32_bytes v
unfolding append_little_endian32 append_rounds u32_bytes
append_little_endian32_lem encoded v = rw (div_one v) (
    pushed4 encoded (bit_and v 0xff) (bit_and (v / 2 ^ 8) 0xff) (bit_and (v / 2 ^ 16) 0xff)
      (bit_and (v / 2 ^ 24) 0xff))

pub append_little_endian16_lem :
    (encoded : Bytes) (v : ℕ) → append_little_endian16 encoded v ≡ encoded ++ u16_bytes v
unfolding append_little_endian16 append_rounds u16_bytes
append_little_endian16_lem encoded v =
    rw (div_one v) (append_assoc encoded (bit_and v 0xff ∷ []) (bit_and (v / 2 ^ 8) 0xff ∷ []))

-- The first round of a reading loop.
first_round :
    (encoded : Bytes) (o : ℕ) → bit_or 0 (get_or encoded (o + 0) 0 * 1) ≡ get_or encoded o 0
first_round encoded o =
    let same : o + 0 ≡ o = omega arith in
    rw (zero-bit_or (get_or encoded (o + 0) 0 * 1), same) (omega arith)

pub read_little_endian32_lem :
    (encoded : Bytes) (o : ℕ) → read_little_endian32 encoded o ≡ le_u32 encoded o
unfolding read_little_endian32 read_rounds le_u32 read_u32 join_u32 byte_at
read_little_endian32_lem encoded o =
    rw (first_round encoded o)
      (elim (Bool-cases (ltb (length encoded) (o + 4))) [ inl e ↦ rw e refl | inr e ↦ rw e refl ])

pub read_little_endian16_lem :
    (encoded : Bytes) (o : ℕ) → read_little_endian16 encoded o ≡ le_u16 encoded o
unfolding read_little_endian16 read_rounds le_u16 read_u16 join_u16 byte_at
read_little_endian16_lem encoded o =
    rw (first_round encoded o)
      (elim (Bool-cases (ltb (length encoded) (o + 2))) [ inl e ↦ rw e refl | inr e ↦ rw e refl ])

-- Reads where the bytes that are left begin with the value.
pub read_little_endian32_at :
    (bytes : Bytes) (o v : ℕ) (rest : Bytes)
    → IsU32 v
    → drop o bytes ≡ u32_bytes v ++ rest
    → read_little_endian32 bytes o ≡ some (v, o + 4)
read_little_endian32_at bytes o v rest h e =
    read_little_endian32_lem bytes o ∙ le_u32_at bytes o v rest h e

pub read_little_endian16_at :
    (bytes : Bytes) (o v : ℕ) (rest : Bytes)
    → IsU16 v
    → drop o bytes ≡ u16_bytes v ++ rest
    → read_little_endian16 bytes o ≡ some (v, o + 2)
read_little_endian16_at bytes o v rest h e =
    read_little_endian16_lem bytes o ∙ le_u16_at bytes o v rest h e

front_of_drop :
    (bytes : Bytes) (o v : ℕ) (rest : Bytes)
    → drop o bytes ≡ v ∷ rest
    → (get_or bytes o 0 ≡ v) × (o + 1 ≤ length bytes)
front_of_drop [] zero v rest e = cc
front_of_drop [] (suc o) v rest e = cc
front_of_drop (x ∷ xs) zero v rest e = (ap (λ t. get_or t 0 0) e, omega arith)
front_of_drop (x ∷ xs) (suc o) v rest e =
    let (same, bound) = front_of_drop xs o v rest e in (same, omega (arith, bound))

pub read_byte_at :
    (bytes : Bytes) (o v : ℕ) (rest : Bytes)
    → drop o bytes ≡ v ∷ rest
    → read_byte bytes o ≡ some (v, o + 1)
unfolding read_byte
read_byte_at bytes o v rest e = ground (arith, front_of_drop bytes o v rest e)
