-- ===== src/Store/NameLaws.antt =====
-- The name of a segment's file determines its generation.
use pqueue.Base.{ℕ, ◌%◌, ◌<◌, ◌≡◌, ap, some, arith}
use pqueue.Bytes.{IsU32}
use pqueue.Store.Names.{hex_digit, segment_name, digit_value, is_segment_name}

digit_value-hex_digit : (d : ℕ) → d < 16 → digit_value (hex_digit d) ≡ some d
unfolding digit_value hex_digit
digit_value-hex_digit d h = ground arith

digit_value-mod : (x : ℕ) → digit_value (hex_digit (x % 16)) ≡ some (x % 16)
digit_value-mod x = digit_value-hex_digit (x % 16) (omega arith)

-- The name that the store gives to a segment is recognised, with the generation that it was given.
pub is_segment_name-segment_name :
    (generation : ℕ)
    → IsU32 generation
    → is_segment_name (segment_name generation) ≡ some generation
unfolding is_segment_name segment_name
is_segment_name-segment_name g h = simp digit_value-mod (ap some (omega arith))
