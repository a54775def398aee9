-- ===== src/Compaction/Exchange.antt =====
-- The generations of a compaction's input and output in the manifest.
use pqueue.Base.{
  ℕ, zero, suc, ◌+◌, ◌-◌, ◌^◌, ◌≤◌, ◌<◌, ◌≡◌, refl, sym, ap, ◌∙◌, inl, inr, List, [], ◌∷◌, ◌++◌,
  some, some-inj, none≢some, arith, All, All-append, Bool-cases, append_assoc, append-nil,
  get_elem?, ltb, ltb→lt, not_ltb→le, take, drop,
}
use pqueue.LogFormat.{to_u32}
use pqueue.Manifest.{ManifestRange}
use pqueue.Manifest.RoundTrip.{IsRange}
use pqueue.Manifest.Slots.{range_generations}
use pqueue.Compaction.{CompactionRange}
use pqueue.Compaction.Plan.{Input, part_of}
use pqueue.Compaction.Splice.{
  left_rest, right_rest, drop_input, merge_at, merge_before, splice_output, replace_input, next_if,
}
use pqueue.Compaction.Ranges.{
  span, span-append, range_generations-append, range_generations-merge_at, only_if, pieces,
  drop_input-pieces, splice_output-pieces, merge_at-IsRange,
}

split_at :
    (idx : ℕ) (parent : ManifestRange) (ranges : List ManifestRange)
    → get_elem? ranges idx ≡ some parent
    → ranges ≡ take idx ranges ++ (parent ∷ drop (suc idx) ranges)
split_at idx parent [] e = absurd (none≢some e)
split_at zero parent (r ∷ rs) e = ap (λ t. t ∷ rs) (some-inj e)
split_at (suc idx) parent (r ∷ rs) e = ap (λ t. r ∷ t) (split_at idx parent rs e)

All-take :
    (idx : ℕ) (ranges : List ManifestRange) → All IsRange ranges → All IsRange (take idx ranges)
All-take zero [] hs = tt
All-take zero (r ∷ rs) hs = tt
All-take (suc idx) [] hs = tt
All-take (suc idx) (r ∷ rs) (h, hs) = (h, All-take idx rs hs)

All-drop :
    (idx : ℕ) (ranges : List ManifestRange) → All IsRange ranges → All IsRange (drop idx ranges)
All-drop zero [] hs = tt
All-drop zero (r ∷ rs) hs = hs
All-drop (suc idx) [] hs = tt
All-drop (suc idx) (r ∷ rs) (h, hs) = All-drop idx rs hs

All-at :
    (idx : ℕ) (parent : ManifestRange) (ranges : List ManifestRange)
    → get_elem? ranges idx ≡ some parent
    → All IsRange ranges
    → IsRange parent
All-at idx parent [] e hs = absurd (none≢some e)
All-at zero parent (r ∷ rs) e (h, hs) = rw (sym (some-inj e)) h
All-at (suc idx) parent (r ∷ rs) e (h, hs) = All-at idx parent rs e hs

module _ (idx : ℕ) (parent : ManifestRange) (range : CompactionRange) (ranges : List ManifestRange)
    (at : get_elem? ranges idx ≡ some parent) (are : All IsRange ranges)
    (starts : parent.start_gen ≤ range.start_gen) (ordered : range.start_gen ≤ range.end_gen)
    (ends : range.end_gen ≤ parent.end_gen) where
  abbrev input : Input
  input = part_of range parent

  parent-IsRange : IsRange parent
  parent-IsRange = All-at idx parent ranges at are

  parent_end : parent.end_gen < 2 ^ 32
  parent_end = parent-IsRange.end_small

  abbrev lefts : List ManifestRange
  lefts = only_if input.has_left (left_rest parent input)

  abbrev rights : List ManifestRange
  rights = only_if input.has_right (right_rest parent input)

  left_end : 0 < range.start_gen → to_u32 (range.start_gen + (2 ^ 32 - 1)) + 1 ≡ range.start_gen
  left_end pos = omega (arith, parent_end, ordered, ends, pos)

  -- What is left of the parent in front of the input, and the input.
  left_span :
      range_generations lefts ++ span range.start_gen range.end_gen
      ≡ span parent.start_gen range.end_gen
  unfolding range_generations
  left_span = elim (Bool-cases (ltb parent.start_gen range.start_gen)) [
    | inl e ↦
        let before = ltb→lt parent.start_gen range.start_gen e in
        let last = to_u32 (range.start_gen + (2 ^ 32 - 1)) in
        let next : last + 1 ≡ range.start_gen = left_end (omega (arith, before)) in
        rw e (
          ap (λ t. t ++ span range.start_gen range.end_gen)
            (append-nil (span parent.start_gen last))
          ∙ ap (λ s. span parent.start_gen last ++ span s range.end_gen) (sym next)
          ∙ sym (
              span-append parent.start_gen last range.end_gen (omega (arith, next, before))
                (omega (arith, next, ordered))))
    | inr e ↦
        let same : range.start_gen ≡ parent.start_gen =
          omega (arith, starts, not_ltb→le parent.start_gen range.start_gen e) in
        rw e (ap (λ s. span s range.end_gen) same)
  ]

  right_span :
      span parent.start_gen range.end_gen ++ range_generations rights
      ≡ span parent.start_gen parent.end_gen
  unfolding range_generations
  right_span = elim (Bool-cases (ltb range.end_gen parent.end_gen)) [
    | inl e ↦
        let behind = ltb→lt range.end_gen parent.end_gen e in
        let next : to_u32 (range.end_gen + 1) ≡ range.end_gen + 1 =
          omega (arith, behind, parent_end) in
        rw e (
          ap (λ t. span parent.start_gen range.end_gen ++ t)
            (append-nil (span (to_u32 (range.end_gen + 1)) parent.end_gen)
              ∙ ap (λ s. span s parent.end_gen) next)
          ∙ sym (
              span-append parent.start_gen range.end_gen parent.end_gen
                (omega (arith, starts, ordered)) ends))
    | inr e ↦
        let same : range.end_gen ≡ parent.end_gen =
          omega (arith, ends, not_ltb→le range.end_gen parent.end_gen e) in
        rw e (append-nil (span parent.start_gen range.end_gen) ∙ ap (span parent.start_gen) same)
  ]

  abbrev before_input : List ℕ
  before_input = range_generations (take idx ranges) ++ range_generations lefts

  abbrev behind_input : List ℕ
  behind_input = range_generations rights ++ range_generations (drop (suc idx) ranges)

  whole_span :
      span parent.start_gen parent.end_gen
      ≡ range_generations lefts ++ (span range.start_gen range.end_gen ++ range_generations rights)
  whole_span =
      sym right_span
      ∙ ap (λ t. t ++ range_generations rights) (sym left_span)
      ∙ append_assoc (range_generations lefts) (span range.start_gen range.end_gen)
          (range_generations rights)

  names_before :
      range_generations ranges
      ≡ before_input ++ (span range.start_gen range.end_gen ++ behind_input)
  unfolding range_generations
  names_before =
      ap range_generations (split_at idx parent ranges at)
      ∙ range_generations-append (take idx ranges) (parent ∷ drop (suc idx) ranges)
      ∙ ap
          (λ t.
            range_generations (take idx ranges) ++ (t ++ range_generations (drop (suc idx) ranges)))
          whole_span
      ∙ simp append_assoc refl

  named_pieces :
      (output : List ManifestRange)
      → range_generations (take idx ranges ++ (pieces parent input output ++ drop (suc idx) ranges))
        ≡ before_input ++ (range_generations output ++ behind_input)
  named_pieces output = simp (range_generations-append, append_assoc) refl

  -- The ranges without the input are ranges, and with a range for the output.
  spliced-IsRange :
      (output : ManifestRange)
      → IsRange output
      → All IsRange
          (take idx ranges ++ (pieces parent input (output ∷ []) ++ drop (suc idx) ranges))
  spliced-IsRange output h = All-append IsRange (take idx ranges) _ (All-take idx ranges are) (
      All-append IsRange (pieces parent input (output ∷ [])) (drop (suc idx) ranges)
        (All-append IsRange lefts (output ∷ rights) lefts-IsRange (h, rights-IsRange))
        (All-drop (suc idx) ranges are))
    where
      lefts-IsRange : All IsRange lefts
      lefts-IsRange = elim (Bool-cases (ltb parent.start_gen range.start_gen)) [
        | inl e ↦
            let before = ltb→lt parent.start_gen range.start_gen e in
            let next = left_end (omega (arith, before)) in
            rw e (
              record {
                start_pos = parent-IsRange.start_pos;
                ordered = omega (arith, next, before);
                end_small = omega arith;
              },
              tt,
            )
        | inr e ↦ rw e tt
      ]

      rights-IsRange : All IsRange rights
      rights-IsRange = elim (Bool-cases (ltb range.end_gen parent.end_gen)) [
        | inl e ↦
            let behind = ltb→lt range.end_gen parent.end_gen e in
            rw e (
              record {
                start_pos = omega (arith, behind, parent_end);
                ordered = omega (arith, behind, parent_end);
                end_small = parent_end;
              },
              tt,
            )
        | inr e ↦ rw e tt
      ]

  replaced_names :
      (output : ManifestRange)
      → IsRange output
      → range_generations (replace_input idx parent input output ranges)
        ≡ before_input ++ (span output.start_gen output.end_gen ++ behind_input)
  unfolding replace_input merge_before
  replaced_names output h =
      merged (next_if input.has_left idx)
      ∙ ap range_generations same
      ∙ named_pieces (output ∷ [])
      ∙ (unfold range_generations in
          ap (λ t. before_input ++ (t ++ behind_input))
            (append-nil (span output.start_gen output.end_gen)))
    where
      same :
          splice_output idx parent input output ranges
          ≡ take idx ranges ++ (pieces parent input (output ∷ []) ++ drop (suc idx) ranges)
      same = splice_output-pieces idx parent parent input output ranges at

      spliced : All IsRange (splice_output idx parent input output ranges)
      spliced = rw same (spliced-IsRange output h)

      merged :
          (i : ℕ)
          → range_generations
              (merge_before i (merge_at i (splice_output idx parent input output ranges)))
            ≡ range_generations (splice_output idx parent input output ranges)
      merged zero =
          range_generations-merge_at zero (splice_output idx parent input output ranges) spliced
      merged (suc i) =
          range_generations-merge_at i
            (merge_at (suc i) (splice_output idx parent input output ranges))
            (merge_at-IsRange (suc i) (splice_output idx parent input output ranges) spliced)
          ∙ range_generations-merge_at (suc i) (splice_output idx parent input output ranges)
              spliced

  -- The generations that the manifest names are those in front of the input, the input's and those
  -- behind it. Where the input is dropped, those in front and those behind are left; where it is
  -- replaced, the output's stand between them. What is left of the parent range stays, and joining
  -- ranges changes no generation.
  pub replace_input-exchanges :
      (output : ManifestRange)
      → IsRange output
      → (before : List ℕ) × (behind : List ℕ) × (range_generations ranges
          ≡ before ++ (span range.start_gen range.end_gen ++ behind))
        × (range_generations (drop_input idx parent input ranges) ≡ before ++ behind)
        × (range_generations (replace_input idx parent input output ranges)
            ≡ before ++ (span output.start_gen output.end_gen ++ behind))
  replace_input-exchanges output h = (
    before_input,
    behind_input,
    names_before,
    ap range_generations (drop_input-pieces idx parent parent input ranges at)
        ∙ named_pieces []
        ∙ (unfold range_generations in refl),
    replaced_names output h,
  )
