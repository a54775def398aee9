-- ===== src/Compaction/Ranges.antt =====
-- The generations that the manifest names, where ranges are split, joined and replaced.
use pqueue.Base.{
  ℕ, zero, suc, ◌+◌, ◌-◌, ◌≤◌, ◌≡◌, refl, sym, ap, ◌∙◌, inl, inr, Bool, true, false, List, [], ◌∷◌,
  ◌++◌, some, none≢some, arith, All, Bool-cases, append_assoc, get_elem?, ◌==◌, take, drop,
}
use pqueue.LogFormat.{to_u32}
use pqueue.Manifest.{ManifestRange}
use pqueue.Manifest.RoundTrip.{IsRange}
use pqueue.Manifest.Slots.{generations_from, range_generations}
use pqueue.Compaction.Plan.{Input}
use pqueue.Compaction.Splice.{
  erase_at, insert_at, insert_if, next_if, left_rest, right_rest, drop_input, merge_at,
  splice_output,
}

abbrev pub span : ℕ → ℕ → List ℕ
span start_gen end_gen = generations_from start_gen (end_gen + 1 - start_gen)

generations_from-add :
    (start a b : ℕ)
    → generations_from start (a + b) ≡ generations_from start a ++ generations_from (start + a) b
unfolding generations_from
generations_from-add start zero b =
    let none_left : zero + b ≡ b = omega arith in
    let same : start + zero ≡ start = omega arith in rw (none_left, same) refl
generations_from-add start (suc a) b =
    let one_less : suc a + b ≡ suc (a + b) = omega arith in
    let moved : start + suc a ≡ start + 1 + a = omega arith in
    rw (one_less, moved) (ap (λ t. start ∷ t) (generations_from-add (start + 1) a b))

pub span-append : (a b c : ℕ) → a ≤ b + 1 → b ≤ c → span a c ≡ span a b ++ span (b + 1) c
span-append a b c h k =
    ap (generations_from a) both
    ∙ generations_from-add a (b + 1 - a) (c + 1 - (b + 1))
    ∙ ap (λ s. generations_from a (b + 1 - a) ++ generations_from s (c + 1 - (b + 1))) at
  where
    both : c + 1 - a ≡ (b + 1 - a) + (c + 1 - (b + 1))
    both = omega (arith, h, k)

    at : a + (b + 1 - a) ≡ b + 1
    at = omega (arith, h)

pub range_generations-append :
    (xs ys : List ManifestRange)
    → range_generations (xs ++ ys) ≡ range_generations xs ++ range_generations ys
unfolding range_generations
range_generations-append [] ys = refl
range_generations-append (x ∷ xs) ys =
    ap (λ t. span x.start_gen x.end_gen ++ t) (range_generations-append xs ys)
    ∙ sym (append_assoc (span x.start_gen x.end_gen) (range_generations xs) (range_generations ys))

-- Joining two ranges whose generations follow each other names the same generations.
pub range_generations-merge_at :
    (i : ℕ) (ranges : List ManifestRange)
    → All IsRange ranges
    → range_generations (merge_at i ranges) ≡ range_generations ranges
unfolding range_generations merge_at
range_generations-merge_at i [] hs = refl
range_generations-merge_at zero (r ∷ []) hs = refl
range_generations-merge_at zero (r ∷ r' ∷ rs) (h, (k, hs)) =
    elim (Bool-cases (to_u32 (r.end_gen + 1) == r'.start_gen)) [
      | inl e ↦
          let start : r'.start_gen ≡ r.end_gen + 1 = ground (arith, e, h.end_small, k.start_pos) in
          rw e (
            ap (λ t. t ++ range_generations rs)
              (span-append r.start_gen r.end_gen r'.end_gen (omega (arith, h.ordered))
                  (omega (arith, k.ordered, start))
                ∙ ap (λ s. span r.start_gen r.end_gen ++ span s r'.end_gen) (sym start))
            ∙ append_assoc (span r.start_gen r.end_gen) (span r'.start_gen r'.end_gen)
                (range_generations rs))
      | inr e ↦ rw e refl
    ]
range_generations-merge_at (suc i) (r ∷ rs) (h, hs) =
    ap (λ t. span r.start_gen r.end_gen ++ t) (range_generations-merge_at i rs hs)

-- What stands in the place of the parent.
abbrev pub only_if {ℓ} : {A : Type ℓ} → Bool → A → List A
only_if true x = x ∷ []
only_if false x = []

abbrev pub pieces : ManifestRange → Input → List ManifestRange → List ManifestRange
pieces parent input output =
    only_if input.has_left (left_rest parent input)
    ++ (output ++ only_if input.has_right (right_rest parent input))

pub drop_input-pieces :
    (idx : ℕ) (parent p : ManifestRange) (input : Input) (ranges : List ManifestRange)
    → get_elem? ranges idx ≡ some p
    → drop_input idx parent input ranges
      ≡ take idx ranges ++ (pieces parent input [] ++ drop (suc idx) ranges)
unfolding drop_input erase_at insert_if insert_at
drop_input-pieces idx parent p input [] e = absurd (none≢some e)
drop_input-pieces zero parent p input (r ∷ rs) e = here input.has_left input.has_right
  where
    here :
        (l k : Bool)
        → insert_if k
            (next_if l zero)
            (right_rest parent input)
            (insert_if l zero (left_rest parent input) rs)
          ≡ (only_if l (left_rest parent input) ++ only_if k (right_rest parent input)) ++ rs
    here true true = refl
    here true false = refl
    here false true = refl
    here false false = refl
drop_input-pieces (suc idx) parent p input (r ∷ rs) e =
    there input.has_left input.has_right
    ∙ ap (λ t. r ∷ t) (drop_input-pieces idx parent p input rs e)
  where
    there :
        (l k : Bool)
        → insert_if k
            (next_if l (suc idx))
            (right_rest parent input)
            (insert_if l (suc idx) (left_rest parent input) (r ∷ erase_at idx rs))
          ≡ r
            ∷ insert_if k
                (next_if l idx)
                (right_rest parent input)
                (insert_if l idx (left_rest parent input) (erase_at idx rs))
    there true true = refl
    there true false = refl
    there false true = refl
    there false false = refl

pub splice_output-pieces :
    (idx : ℕ) (parent p : ManifestRange) (input : Input) (output : ManifestRange)
    (ranges : List ManifestRange)
    → get_elem? ranges idx ≡ some p
    → splice_output idx parent input output ranges
      ≡ take idx ranges ++ (pieces parent input (output ∷ []) ++ drop (suc idx) ranges)
unfolding splice_output erase_at insert_if insert_at
splice_output-pieces idx parent p input output [] e = absurd (none≢some e)
splice_output-pieces zero parent p input output (r ∷ rs) e = here input.has_left input.has_right
  where
    here :
        (l k : Bool)
        → insert_if k
            (suc (next_if l zero))
            (right_rest parent input)
            (insert_at (next_if l zero) output (insert_if l zero (left_rest parent input) rs))
          ≡ (only_if l (left_rest parent input) ++ (output ∷ only_if k (right_rest parent input)))
            ++ rs
    here true true = refl
    here true false = refl
    here false true = refl
    here false false = refl
splice_output-pieces (suc idx) parent p input output (r ∷ rs) e =
    there input.has_left input.has_right
    ∙ ap (λ t. r ∷ t) (splice_output-pieces idx parent p input output rs e)
  where
    there :
        (l k : Bool)
        → insert_if k (suc (next_if l (suc idx))) (right_rest parent input) (
            insert_at
              (next_if l (suc idx))
              output
              (insert_if l (suc idx) (left_rest parent input) (r ∷ erase_at idx rs)))
          ≡ r
            ∷ insert_if k (suc (next_if l idx)) (right_rest parent input) (
                insert_at
                  (next_if l idx)
                  output
                  (insert_if l idx (left_rest parent input) (erase_at idx rs)))
    there true true = refl
    there true false = refl
    there false true = refl
    there false false = refl

pub merge_at-IsRange :
    (i : ℕ) (ranges : List ManifestRange) → All IsRange ranges → All IsRange (merge_at i ranges)
unfolding merge_at
merge_at-IsRange i [] hs = tt
merge_at-IsRange zero (r ∷ []) hs = hs
merge_at-IsRange zero (r ∷ r' ∷ rs) (h, (k, hs)) =
    elim (Bool-cases (to_u32 (r.end_gen + 1) == r'.start_gen)) [
      | inl e ↦
          let start : r'.start_gen ≡ r.end_gen + 1 = ground (arith, e, h.end_small, k.start_pos) in
          rw e (
            record {
              start_pos = h.start_pos;
              ordered = omega (arith, h.ordered, k.ordered, start);
              end_small = k.end_small;
            },
            hs,
          )
      | inr e ↦ rw e (h, (k, hs))
    ]
merge_at-IsRange (suc i) (r ∷ rs) (h, hs) = (h, merge_at-IsRange i rs hs)
