-- ===== src/Manifest/Cursor.antt =====
-- The cursor of the manifest's parser, in terms of the bytes that are still to be read.
use pqueue.Base.{ℕ, zero, suc, ◌+◌, ◌≡◌, refl, ap, ◌∙◌, [], ◌∷◌, ◌++◌, some, arith, drop, ◌>>=◌}
use pqueue.Bytes.{Bytes, IsU16, IsU32, u32_bytes, u16_bytes, read_u32, read_u16}
use pqueue.Bytes.Laws.{read_u32-front, read_u16-front, read_u32-skip, read_u16-skip}
use pqueue.Manifest.{le_u32, le_u16}

-- A read at an offset is a read at the front of what is left.
read_u32-of_drop : (xs : Bytes) (o : ℕ) → read_u32 xs o ≡ read_u32 (drop o xs) 0
read_u32-of_drop xs zero = refl
read_u32-of_drop [] (suc o) = unfold read_u32 in ground arith
read_u32-of_drop (x ∷ xs) (suc o) =
    read_u32-skip (x ∷ []) xs o (suc o) (omega arith) ∙ read_u32-of_drop xs o

read_u16-of_drop : (xs : Bytes) (o : ℕ) → read_u16 xs o ≡ read_u16 (drop o xs) 0
read_u16-of_drop xs zero = refl
read_u16-of_drop [] (suc o) = unfold read_u16 in ground arith
read_u16-of_drop (x ∷ xs) (suc o) =
    read_u16-skip (x ∷ []) xs o (suc o) (omega arith) ∙ read_u16-of_drop xs o

pub le_u32_at :
    (bytes : Bytes) (o v : ℕ) (rest : Bytes)
    → IsU32 v
    → drop o bytes ≡ u32_bytes v ++ rest
    → le_u32 bytes o ≡ some (v, o + 4)
unfolding le_u32
le_u32_at bytes o v rest h e =
    ap (λ r. r >>= λ v. some (v, o + 4))
      (read_u32-of_drop bytes o ∙ ap (λ t. read_u32 t 0) e ∙ read_u32-front v rest h)

pub le_u16_at :
    (bytes : Bytes) (o v : ℕ) (rest : Bytes)
    → IsU16 v
    → drop o bytes ≡ u16_bytes v ++ rest
    → le_u16 bytes o ≡ some (v, o + 2)
unfolding le_u16
le_u16_at bytes o v rest h e =
    ap (λ r. r >>= λ v. some (v, o + 2))
      (read_u16-of_drop bytes o ∙ ap (λ t. read_u16 t 0) e ∙ read_u16-front v rest h)
