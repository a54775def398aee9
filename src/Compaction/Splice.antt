-- ===== src/Compaction/Splice.antt =====
-- The manifest's ranges behind a compaction, src/pqueue/append_log_store/compaction.cpp: the parent
-- range is taken out, what is left of it and the output are put in its place, and the output is
-- joined with its neighbours where the generations follow each other.
use pqueue.Base.{ℕ, zero, suc, ◌+◌, ◌-◌, ◌^◌, Bool, List, [], ◌∷◌, ◌==◌, if◌then◌else◌}
use pqueue.LogFormat.{to_u32}
use pqueue.Manifest.{ManifestRange}
use pqueue.Compaction.Plan.{Input}

-- `newRanges.erase(newRanges.begin() + i)`
unfoldable pub erase_at {ℓ} : {A : Type ℓ} → ℕ → List A → List A
erase_at i [] = []
erase_at zero (x ∷ xs) = xs
erase_at (suc i) (x ∷ xs) = x ∷ erase_at i xs

-- `newRanges.insert(newRanges.begin() + i, x)`
unfoldable pub insert_at {ℓ} : {A : Type ℓ} → ℕ → A → List A → List A
insert_at zero x xs = x ∷ xs
insert_at (suc i) x [] = x ∷ []
insert_at (suc i) x (y ∷ ys) = y ∷ insert_at i x ys

abbrev pub left_rest : ManifestRange → Input → ManifestRange
left_rest parent input = record {
  start_gen = parent.start_gen;
  end_gen = to_u32 (input.range.start_gen + (2 ^ 32 - 1));
}

abbrev pub right_rest : ManifestRange → Input → ManifestRange
right_rest parent input = record {
  start_gen = to_u32 (input.range.end_gen + 1);
  end_gen = parent.end_gen;
}

unfoldable pub insert_if {ℓ} : {A : Type ℓ} → Bool → ℕ → A → List A → List A
unfolding insert_at
insert_if b i x xs = if b then insert_at i x xs else xs

abbrev pub next_if : Bool → ℕ → ℕ
next_if b i = if b then suc i else i

-- A subrange without live records is dropped.
unfoldable pub drop_input : ℕ → ManifestRange → Input → List ManifestRange → List ManifestRange
unfolding erase_at insert_if
drop_input idx parent input ranges =
    let ranges = insert_if input.has_left idx (left_rest parent input) (erase_at idx ranges) in
    insert_if input.has_right (next_if input.has_left idx) (right_rest parent input) ranges

-- `ranges[i]` and `ranges[i + 1]` become one range if the generations follow each other.
unfoldable pub merge_at : ℕ → List ManifestRange → List ManifestRange
merge_at i [] = []
merge_at zero (r ∷ []) = r ∷ []
merge_at zero (r ∷ r' ∷ rs) =
    if to_u32 (r.end_gen + 1) == r'.start_gen
    then record r { end_gen = r'.end_gen } ∷ rs
    else r ∷ r' ∷ rs
merge_at (suc i) (r ∷ rs) = r ∷ merge_at i rs

-- The merge with the range in front, `if (outputIdx > 0 && ...)`.
unfoldable pub merge_before : ℕ → List ManifestRange → List ManifestRange
unfolding merge_at
merge_before zero ranges = ranges
merge_before (suc i) ranges = merge_at i ranges

unfoldable pub splice_output :
    ℕ → ManifestRange → Input → ManifestRange → List ManifestRange → List ManifestRange
unfolding erase_at insert_if insert_at
splice_output idx parent input output ranges =
    let at = next_if input.has_left idx in
    let ranges = insert_if input.has_left idx (left_rest parent input) (erase_at idx ranges) in
    let ranges = insert_at at output ranges in
    insert_if input.has_right (suc at) (right_rest parent input) ranges

unfoldable pub replace_input :
    ℕ → ManifestRange → Input → ManifestRange → List ManifestRange → List ManifestRange
unfolding splice_output merge_at merge_before
replace_input idx parent input output ranges =
    let at = next_if input.has_left idx in
    merge_before at (merge_at at (splice_output idx parent input output ranges))
