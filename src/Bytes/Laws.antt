-- ===== src/Bytes/Laws.antt =====
-- Reading back what was written, and what a successful read says of the bytes that it read.
use pqueue.Base.{
  ℕ, zero, suc, ◌+◌, ◌*◌, ◌/◌, ◌%◌, ◌^◌, ◌≤◌, ◌<◌, ◌≡◌, refl, sym, ap, ◌∙◌, [], ◌∷◌, ◌++◌, some,
  bit_and, bit_or, arith, length, get_or, drop, length-append,
}
use pqueue.Base.Bits.{byte_mask, bit_or_disjoint}
use pqueue.Bytes.{
  Bytes, AreBytes, IsU16, IsU32, shr, u32_bytes, u16_bytes, join_u32, join_u16, byte_at, read_u32,
  read_u16,
}

-- With bytes as operands the disjunctions are sums.
pub join_u32_lem :
    (b0 b1 b2 b3 : ℕ)
    → b0 < 256
    → b1 < 256
    → b2 < 256
    → join_u32 b0 b1 b2 b3 ≡ b0 + b1 * 256 + b2 * 65536 + b3 * 16777216
unfolding join_u32
join_u32_lem b0 b1 b2 b3 h0 h1 h2 =
    ap (λ t. bit_or (bit_or t (b2 * 2 ^ 16)) (b3 * 2 ^ 24)) (bit_or_disjoint 8 b0 b1 h0)
    ∙ ap (λ t. bit_or t (b3 * 2 ^ 24)) (bit_or_disjoint 16 (b0 + b1 * 2 ^ 8) b2 (omega arith))
    ∙ bit_or_disjoint 24 (b0 + b1 * 2 ^ 8 + b2 * 2 ^ 16) b3 (omega arith)

pub join_u16_lem : (b0 b1 : ℕ) → b0 < 256 → join_u16 b0 b1 ≡ b0 + b1 * 256
unfolding join_u16
join_u16_lem b0 b1 h0 = bit_or_disjoint 8 b0 b1 h0

byte_of : (v k : ℕ) → bit_and (shr v k) 0xff ≡ v / 2 ^ k % 256
byte_of v k = byte_mask (shr v k)

join_u32-bytes :
    (v : ℕ)
    → IsU32 v
    → join_u32
        (bit_and v 0xff)
        (bit_and (shr v 8) 0xff)
        (bit_and (shr v 16) 0xff)
        (bit_and (shr v 24) 0xff)
      ≡ v
join_u32-bytes v h = omega (
  arith,
  byte_mask v,
  byte_of v 8,
  byte_of v 16,
  byte_of v 24,
  join_u32_lem (bit_and v 0xff) (bit_and (shr v 8) 0xff) (bit_and (shr v 16) 0xff)
      (bit_and (shr v 24) 0xff) (omega (arith, byte_mask v)) (omega (arith, byte_of v 8))
      (omega (arith, byte_of v 16)),
)

join_u16-bytes : (v : ℕ) → IsU16 v → join_u16 (bit_and v 0xff) (bit_and (shr v 8) 0xff) ≡ v
join_u16-bytes v h = omega (
  arith,
  byte_mask v,
  byte_of v 8,
  join_u16_lem (bit_and v 0xff) (bit_and (shr v 8) 0xff) (omega (arith, byte_mask v)),
)

pub u32_bytes-AreBytes : (v : ℕ) → AreBytes (u32_bytes v)
unfolding u32_bytes
u32_bytes-AreBytes v = omega (arith, byte_mask v, byte_of v 8, byte_of v 16, byte_of v 24)

pub u16_bytes-AreBytes : (v : ℕ) → AreBytes (u16_bytes v)
unfolding u16_bytes
u16_bytes-AreBytes v = omega (arith, byte_mask v, byte_of v 8)

pub length-u32_bytes : (v : ℕ) → length (u32_bytes v) ≡ 4
unfolding u32_bytes
length-u32_bytes v = refl

pub length-u16_bytes : (v : ℕ) → length (u16_bytes v) ≡ 2
unfolding u16_bytes
length-u16_bytes v = refl

-- A read at the front of the bytes of a value returns that value.
pub read_u32-front : (v : ℕ) (rest : Bytes) → IsU32 v → read_u32 (u32_bytes v ++ rest) 0 ≡ some v
unfolding read_u32 u32_bytes byte_at
read_u32-front v rest h = ground (arith, join_u32-bytes v h)

pub read_u16-front : (v : ℕ) (rest : Bytes) → IsU16 v → read_u16 (u16_bytes v ++ rest) 0 ≡ some v
unfolding read_u16 u16_bytes byte_at
read_u16-front v rest h = ground (arith, join_u16-bytes v h)

pub byte_at-append :
    (pre xs : Bytes) (i n : ℕ) → n ≡ length pre + i → byte_at (pre ++ xs) n ≡ byte_at xs i
unfolding byte_at
byte_at-append [] xs i n e = ap (λ t. get_or xs t 0) (omega arith)
byte_at-append (x ∷ pre) xs i n e =
    let e' : n ≡ suc (length pre + i) = omega arith in
    ap (λ t. get_or (x ∷ (pre ++ xs)) t 0) e' ∙ byte_at-append pre xs i (length pre + i) refl

-- A read behind a prefix is a read in what follows it.
pub read_u32-skip :
    (pre xs : Bytes) (o n : ℕ) → n ≡ length pre + o → read_u32 (pre ++ xs) n ≡ read_u32 xs o
unfolding read_u32
read_u32-skip pre xs o n e = ground (
  arith,
  length-append pre xs,
  byte_at-append pre xs o n,
  byte_at-append pre xs (o + 1) (n + 1),
  byte_at-append pre xs (o + 2) (n + 2),
  byte_at-append pre xs (o + 3) (n + 3),
)

pub read_u16-skip :
    (pre xs : Bytes) (o n : ℕ) → n ≡ length pre + o → read_u16 (pre ++ xs) n ≡ read_u16 xs o
unfolding read_u16
read_u16-skip pre xs o n e =
    ground (
      arith,
      length-append pre xs,
      byte_at-append pre xs o n,
      byte_at-append pre xs (o + 1) (n + 1),
    )

-- A value read at the place where its bytes stand.
pub read_u32_at :
    (pre : Bytes) (v : ℕ) (rest : Bytes) (n : ℕ)
    → IsU32 v
    → n ≡ length pre
    → read_u32 (pre ++ (u32_bytes v ++ rest)) n ≡ some v
read_u32_at pre v rest n h e =
    read_u32-skip pre (u32_bytes v ++ rest) 0 n (omega arith) ∙ read_u32-front v rest h

pub read_u16_at :
    (pre : Bytes) (v : ℕ) (rest : Bytes) (n : ℕ)
    → IsU16 v
    → n ≡ length pre
    → read_u16 (pre ++ (u16_bytes v ++ rest)) n ≡ some v
read_u16_at pre v rest n h e =
    read_u16-skip pre (u16_bytes v ++ rest) 0 n (omega arith) ∙ read_u16-front v rest h

bytes-join_u32 :
    (b0 b1 b2 b3 : ℕ)
    → AreBytes (b0 ∷ b1 ∷ b2 ∷ b3 ∷ [])
    → IsU32 (join_u32 b0 b1 b2 b3) × (u32_bytes (join_u32 b0 b1 b2 b3) ≡ b0 ∷ b1 ∷ b2 ∷ b3 ∷ [])
unfolding u32_bytes
bytes-join_u32 b0 b1 b2 b3 (h0, (h1, (h2, (h3, _)))) =
    (omega (arith, sum), ground (arith, sum, byte_mask v, byte_of v 8, byte_of v 16, byte_of v 24))
  where
    v : ℕ
    v = join_u32 b0 b1 b2 b3

    sum : v ≡ b0 + b1 * 256 + b2 * 65536 + b3 * 16777216
    sum = join_u32_lem b0 b1 b2 b3 h0 h1 h2

bytes-join_u16 :
    (b0 b1 : ℕ)
    → AreBytes (b0 ∷ b1 ∷ [])
    → IsU16 (join_u16 b0 b1) × (u16_bytes (join_u16 b0 b1) ≡ b0 ∷ b1 ∷ [])
unfolding u16_bytes
bytes-join_u16 b0 b1 (h0, (h1, _)) =
    (omega (arith, sum), ground (arith, sum, byte_mask v, byte_of v 8))
  where
    v : ℕ
    v = join_u16 b0 b1

    sum : v ≡ b0 + b1 * 256
    sum = join_u16_lem b0 b1 h0

read_u32-front_inv :
    (buf : Bytes) (v : ℕ)
    → AreBytes buf
    → read_u32 buf 0 ≡ some v
    → IsU32 v × (buf ≡ u32_bytes v ++ drop 4 buf) × (4 ≤ length buf)
unfolding read_u32 byte_at
read_u32-front_inv (b0 ∷ (b1 ∷ (b2 ∷ (b3 ∷ rest)))) v (h0, (h1, (h2, (h3, hs)))) e =
    let (small, same) = bytes-join_u32 b0 b1 b2 b3 (h0, (h1, (h2, (h3, tt)))) in
    let p : join_u32 b0 b1 b2 b3 ≡ v = ground arith in rw (← p) (small, rw same refl, omega arith)
read_u32-front_inv buf v h e = ground arith

read_u16-front_inv :
    (buf : Bytes) (v : ℕ)
    → AreBytes buf
    → read_u16 buf 0 ≡ some v
    → IsU16 v × (buf ≡ u16_bytes v ++ drop 2 buf) × (2 ≤ length buf)
unfolding read_u16 byte_at
read_u16-front_inv (b0 ∷ (b1 ∷ rest)) v (h0, (h1, hs)) e =
    let (small, same) = bytes-join_u16 b0 b1 (h0, (h1, tt)) in
    let p : join_u16 b0 b1 ≡ v = ground arith in rw (← p) (small, rw same refl, omega arith)
read_u16-front_inv buf v h e = ground arith

-- A successful read: the value is in range, and its bytes stand at the offset.
pub read_u32-drop :
    (buf : Bytes) (o n v : ℕ)
    → AreBytes buf
    → n ≡ o + 4
    → read_u32 buf o ≡ some v
    → IsU32 v × (drop o buf ≡ u32_bytes v ++ drop n buf) × (n ≤ length buf)
read_u32-drop buf zero n v h p e =
    let p' : n ≡ 4 = omega arith in rw p' (read_u32-front_inv buf v h e)
read_u32-drop [] (suc o) n v h p e = unfold read_u32 in ground arith
read_u32-drop (x ∷ buf) (suc o) zero v h p e = absurd (omega arith)
read_u32-drop (x ∷ buf) (suc o) (suc n) v h p e =
    let skip = read_u32-skip (x ∷ []) buf o (suc o) (omega arith) in
    let (small, same, fits) = read_u32-drop buf o n v h.1 (omega arith) (sym skip ∙ e) in
    (small, same, omega arith)

pub read_u16-drop :
    (buf : Bytes) (o n v : ℕ)
    → AreBytes buf
    → n ≡ o + 2
    → read_u16 buf o ≡ some v
    → IsU16 v × (drop o buf ≡ u16_bytes v ++ drop n buf) × (n ≤ length buf)
read_u16-drop buf zero n v h p e =
    let p' : n ≡ 2 = omega arith in rw p' (read_u16-front_inv buf v h e)
read_u16-drop [] (suc o) n v h p e = unfold read_u16 in ground arith
read_u16-drop (x ∷ buf) (suc o) zero v h p e = absurd (omega arith)
read_u16-drop (x ∷ buf) (suc o) (suc n) v h p e =
    let skip = read_u16-skip (x ∷ []) buf o (suc o) (omega arith) in
    let (small, same, fits) = read_u16-drop buf o n v h.1 (omega arith) (sym skip ∙ e) in
    (small, same, omega arith)
