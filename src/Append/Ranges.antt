-- ===== src/Append/Ranges.antt =====
-- The ranges of the manifest behind the sealing of a tail.
use pqueue.Base.{
  ℕ, zero, suc, ◌+◌, ◌-◌, ◌^◌, ◌≤◌, ◌<◌, ◌≡◌, refl, sym, ap, ◌∙◌, inl, inr, List, [], ◌∷◌, ◌++◌,
  arith, All, Bool-cases, append_assoc, append-nil, ◌==◌,
}
use pqueue.Bytes.{IsU32}
use pqueue.LogFormat.{to_u32}
use pqueue.Manifest.{ManifestRange}
use pqueue.Manifest.RoundTrip.{IsRange}
use pqueue.Manifest.Slots.{generations_from, range_generations}
use pqueue.Append.{append_range}

generations_from-suc :
    (start n : ℕ) → generations_from start (suc n) ≡ generations_from start n ++ ((start + n) ∷ [])
unfolding generations_from
generations_from-suc start zero = ap (λ k. k ∷ []) (omega arith)
generations_from-suc start (suc n) =
    ap (λ t. start ∷ t)
      (generations_from-suc (start + 1) n
        ∙ ap (λ k. generations_from (start + 1) n ++ (k ∷ [])) (omega arith))

one_generation : (gen : ℕ) → generations_from gen (gen + 1 - gen) ≡ gen ∷ []
one_generation gen = ap (generations_from gen) one ∙ (unfold generations_from in refl)
  where
    one : gen + 1 - gen ≡ 1
    one = omega arith

-- The last range grows by the generation that follows it.
grown :
    (start end_gen gen : ℕ)
    → start ≤ end_gen
    → end_gen < 2 ^ 32
    → 0 < gen
    → to_u32 (end_gen + 1) ≡ gen
    → generations_from start (gen + 1 - start)
      ≡ generations_from start (end_gen + 1 - start) ++ (gen ∷ [])
grown start end_gen gen h small pos e =
    ap (generations_from start) count
    ∙ generations_from-suc start (end_gen + 1 - start)
    ∙ ap (λ k. generations_from start (end_gen + 1 - start) ++ (k ∷ [])) last
  where
    count : gen + 1 - start ≡ suc (end_gen + 1 - start)
    count = omega (arith, h, small, pos, e)

    last : start + (end_gen + 1 - start) ≡ gen
    last = omega (arith, h, small, pos, e)

-- The ranges behind the sealing of a tail name the generations that they named, and the tail's.
pub range_generations-append_range :
    (ranges : List ManifestRange) (gen : ℕ)
    → All IsRange ranges
    → 0 < gen
    → range_generations (append_range ranges gen) ≡ range_generations ranges ++ (gen ∷ [])
unfolding range_generations append_range
range_generations-append_range [] gen hs pos = ap (λ t. t ++ []) (one_generation gen)
range_generations-append_range (r ∷ []) gen (h, hs) pos =
    elim (Bool-cases (to_u32 (r.end_gen + 1) == gen)) [
      | inl e ↦ rw e (
          ap (λ t. t ++ [])
            (grown r.start_gen r.end_gen gen h.ordered h.end_small pos (ground (arith, e)))
          ∙ append-nil _
          ∙ ap (λ t. t ++ (gen ∷ []))
              (sym (append-nil (generations_from r.start_gen (r.end_gen + 1 - r.start_gen)))))
      | inr e ↦ rw e (
          ap (λ t. generations_from r.start_gen (r.end_gen + 1 - r.start_gen) ++ (t ++ []))
            (one_generation gen)
          ∙ ap (λ t. t ++ (gen ∷ []))
              (sym (append-nil (generations_from r.start_gen (r.end_gen + 1 - r.start_gen)))))
    ]
range_generations-append_range (r ∷ r' ∷ rs) gen (h, hs) pos =
    ap (λ t. generations_from r.start_gen (r.end_gen + 1 - r.start_gen) ++ t)
      (range_generations-append_range (r' ∷ rs) gen hs pos)
    ∙ sym (
        append_assoc (generations_from r.start_gen (r.end_gen + 1 - r.start_gen))
          (range_generations (r' ∷ rs)) (gen ∷ []))

pub append_range-IsRange :
    (ranges : List ManifestRange) (gen : ℕ)
    → All IsRange ranges
    → 0 < gen
    → IsU32 gen
    → All IsRange (append_range ranges gen)
unfolding append_range
append_range-IsRange [] gen hs pos small =
    (record { start_pos = pos; ordered = omega arith; end_small = small }, tt)
append_range-IsRange (r ∷ []) gen (h, hs) pos small =
    elim (Bool-cases (to_u32 (r.end_gen + 1) == gen)) [
      | inl e ↦
          let after : to_u32 (r.end_gen + 1) ≡ gen = ground (arith, e) in
          let small' : r.end_gen < 2 ^ 32 = h.end_small in
          let ordered : r.start_gen ≤ gen = omega (arith, h.ordered, small', after, pos) in
          rw e (record { start_pos = h.start_pos; ordered = ordered; end_small = small }, tt)
      | inr e ↦ rw e (h, (record { start_pos = pos; ordered = omega arith; end_small = small }, tt))
    ]
append_range-IsRange (r ∷ r' ∷ rs) gen (h, hs) pos small =
    (h, append_range-IsRange (r' ∷ rs) gen hs pos small)
