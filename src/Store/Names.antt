-- ===== src/Store/Names.antt =====
-- File names of segments, `formatGeneration`, `segmentName` and `isSegmentName` of
-- src/pqueue/append_log_store/store.cpp. `std::snprintf` with "%08x" writes eight digits, the
-- highest first, and `std::stoul` in base 16 reads them.
use pqueue.Base.{
  ℕ, zero, suc, ◌+◌, ◌-◌, ◌*◌, ◌/◌, ◌%◌, Bool, true, false, not, ◌&&◌, [], ◌∷◌, ◌++◌, Option, none,
  some, ltb, leb, ◌==◌, if◌then◌else◌, ◌>>=◌, length, take, drop,
}
use pqueue.FileSystem.{Name, codes}

abbrev pub segment_prefix : Name
segment_prefix = codes "seg-"

abbrev pub segment_suffix : Name
segment_suffix = codes ".bin"

unfoldable pub hex_digit : ℕ → ℕ
hex_digit d = if ltb d 10 then b'0' + d else b'a' + (d - 10)

-- The lowest `n` digits of a number.
unfoldable pub hex_digits : ℕ → ℕ → Name
unfolding hex_digit
hex_digits zero v = []
hex_digits (suc n) v = hex_digits n (v / 16) ++ (hex_digit (v % 16) ∷ [])

unfoldable pub format_generation : ℕ → Name
unfolding hex_digits
format_generation gen = hex_digits 8 gen

unfoldable pub segment_name : ℕ → Name
unfolding format_generation
segment_name generation = segment_prefix ++ (format_generation generation ++ segment_suffix)

-- `std::isxdigit` and the value of a digit.
unfoldable pub digit_value : ℕ → Option ℕ
digit_value c =
    if leb b'0' c && leb c b'9'
    then some (c - b'0')
    else if leb b'a' c && leb c b'f'
    then some (c - b'a' + 10)
    else if leb b'A' c && leb c b'F'
    then some (c - b'A' + 10)
    else none

unfoldable pub hex_value : ℕ → Name → Option ℕ
unfolding digit_value
hex_value acc [] = some acc
hex_value acc (c ∷ cs) = digit_value c >>= λ d. hex_value (acc * 16 + d) cs

abbrev pub name_eq : Name → Name → Bool
name_eq [] [] = true
name_eq (x ∷ xs) (y ∷ ys) = (x == y) && name_eq xs ys
name_eq _ _ = false

-- The generation of a segment's file, if the name is one.
unfoldable pub is_segment_name : Name → Option ℕ
unfolding hex_value
is_segment_name name =
    if not (length name == length segment_prefix + 8 + length segment_suffix)
    then none
    else if not (name_eq (take (length segment_prefix) name) segment_prefix)
    then none
    else if not (name_eq (drop (length name - length segment_suffix) name) segment_suffix)
    then none
    else hex_value 0 (take 8 (drop (length segment_prefix) name))
