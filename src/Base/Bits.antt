-- ===== src/Base/Bits.antt =====
-- Laws of the binary operations at every width, from the digit recursion that they stand for.
use Prim.Native.Nat.{
  ℕ, zero, suc, ◌+◌, ◌*◌, ◌/◌, ◌%◌, ◌^◌, ◌≤◌, ◌<◌, min, max, bit_and, bit_or, bit_xor, digits,
  differ, bit_and-bitwise, bit_or-bitwise, bit_xor-bitwise,
}
use mathlib.Core.Path.{◌≡◌, refl, sym, ap, ap₂, ◌∙◌}
use native.Mathlib.Nat.{
  pow-suc, div-add-mod, mod-lt, mod-eq_of_lt, add-mul-mod_self_left, div-div-eq-div-mul,
}
use native.Mathlib.Omega.{arith}

no_digit : (rest : ℕ → ℕ) (op : ℕ → ℕ → ℕ) (y k : ℕ) → digits rest op k zero y ≡ rest y
no_digit rest op y zero = refl
no_digit rest op y (suc k) = refl

-- The digit recursion counts its rounds; any two counts that reach the first number agree.
rounds_agree :
    (rest : ℕ → ℕ) (op : ℕ → ℕ → ℕ) (x y k l : ℕ)
    → (x ≤ k) × (x ≤ l)
    → digits rest op k x y ≡ digits rest op l x y
rounds_agree rest op zero y k l h = no_digit rest op y k ∙ sym (no_digit rest op y l)
rounds_agree rest op (suc x) y zero l (h, _) = absurd (omega (arith, h))
rounds_agree rest op (suc x) y (suc k) zero (_, h) = absurd (omega (arith, h))
rounds_agree rest op (suc x) y (suc k) (suc l) (h, i) =
    ap (λ high. high * 2 + op (suc x % 2) (y % 2))
      (rounds_agree rest op (suc x / 2) (y / 2) k l (omega (arith, h), omega (arith, i)))

-- The first round splits off the low digit.
low_digit :
    (rest : ℕ → ℕ) (op : ℕ → ℕ → ℕ) (x y : ℕ)
    → digits rest op (suc x) (suc x) y
      ≡ digits rest op (suc x / 2) (suc x / 2) (y / 2) * 2 + op (suc x % 2) (y % 2)
low_digit rest op x y =
    ap (λ high. high * 2 + op (suc x % 2) (y % 2))
      (rounds_agree rest op (suc x / 2) (y / 2) x (suc x / 2) (omega arith, omega arith))

pub zero-bit_xor : (b : ℕ) → bit_xor 0 b ≡ b
zero-bit_xor b = bit_xor-bitwise 0 b

pub zero-bit_or : (b : ℕ) → bit_or 0 b ≡ b
zero-bit_or b = bit_or-bitwise 0 b

pub zero-bit_and : (b : ℕ) → bit_and 0 b ≡ 0
zero-bit_and b = bit_and-bitwise 0 b

xor_low :
    (x y : ℕ) → bit_xor (suc x) y ≡ bit_xor (suc x / 2) (y / 2) * 2 + differ (suc x % 2) (y % 2)
xor_low x y =
    bit_xor-bitwise (suc x) y
    ∙ low_digit (λ y. y) differ x y
    ∙ ap (λ high. high * 2 + differ (suc x % 2) (y % 2)) (sym (bit_xor-bitwise (suc x / 2) (y / 2)))

pub bit_xor_step : (x y : ℕ) → bit_xor x y ≡ bit_xor (x / 2) (y / 2) * 2 + differ (x % 2) (y % 2)
bit_xor_step zero y = omega (zero-bit_xor (y / 2), zero-bit_xor y, arith)
bit_xor_step (suc x) y = xor_low x y

or_low : (x y : ℕ) → bit_or (suc x) y ≡ bit_or (suc x / 2) (y / 2) * 2 + max (suc x % 2) (y % 2)
or_low x y =
    bit_or-bitwise (suc x) y
    ∙ low_digit (λ y. y) max x y
    ∙ ap (λ high. high * 2 + max (suc x % 2) (y % 2)) (sym (bit_or-bitwise (suc x / 2) (y / 2)))

pub bit_or_step : (x y : ℕ) → bit_or x y ≡ bit_or (x / 2) (y / 2) * 2 + max (x % 2) (y % 2)
bit_or_step zero y = omega (zero-bit_or (y / 2), zero-bit_or y, arith)
bit_or_step (suc x) y = or_low x y

and_low : (x y : ℕ) → bit_and (suc x) y ≡ bit_and (suc x / 2) (y / 2) * 2 + min (suc x % 2) (y % 2)
and_low x y =
    bit_and-bitwise (suc x) y
    ∙ low_digit (λ y. zero) min x y
    ∙ ap (λ high. high * 2 + min (suc x % 2) (y % 2)) (sym (bit_and-bitwise (suc x / 2) (y / 2)))

pub bit_and_step : (x y : ℕ) → bit_and x y ≡ bit_and (x / 2) (y / 2) * 2 + min (x % 2) (y % 2)
bit_and_step zero y = omega (zero-bit_and (y / 2), zero-bit_and y, arith)
bit_and_step (suc x) y = and_low x y

differ_below_two : (x y : ℕ) → x < 2 → y < 2 → differ x y ≡ (x + y) % 2
differ_below_two zero zero h k = refl
differ_below_two zero (suc zero) h k = refl
differ_below_two (suc zero) zero h k = refl
differ_below_two (suc zero) (suc zero) h k = refl
differ_below_two (suc (suc x)) y h k = absurd (omega arith)
differ_below_two zero (suc (suc y)) h k = absurd (omega arith)
differ_below_two (suc zero) (suc (suc y)) h k = absurd (omega arith)

-- One digit of an exclusive or is the parity of the sum.
pub bit_xor_digit : (a b : ℕ) → bit_xor a b ≡ bit_xor (a / 2) (b / 2) * 2 + (a + b) % 2
bit_xor_digit a b =
    omega (arith, bit_xor_step a b, differ_below_two (a % 2) (b % 2) (omega arith) (omega arith))

bit_xor_comm_fuel : (n a b : ℕ) → a + b ≤ n → bit_xor a b ≡ bit_xor b a
bit_xor_comm_fuel zero a b h =
    let p : a ≡ 0 = omega arith in let q : b ≡ 0 = omega arith in rw (p, q) refl
bit_xor_comm_fuel (suc n) zero zero h = refl
bit_xor_comm_fuel (suc n) zero (suc b) h = omega (
  arith,
  bit_xor_digit 0 (suc b),
  bit_xor_digit (suc b) 0,
  bit_xor_comm_fuel n (0 / 2) (suc b / 2) (omega arith),
)
bit_xor_comm_fuel (suc n) (suc a) b h = omega (
  arith,
  bit_xor_digit (suc a) b,
  bit_xor_digit b (suc a),
  bit_xor_comm_fuel n (suc a / 2) (b / 2) (omega arith),
)

pub bit_xor_comm : (a b : ℕ) → bit_xor a b ≡ bit_xor b a
bit_xor_comm a b = bit_xor_comm_fuel (a + b) a b (omega arith)

pub bit_xor-zero : (a : ℕ) → bit_xor a 0 ≡ a
bit_xor-zero a = bit_xor_comm a 0 ∙ zero-bit_xor a

-- The low digit and the rest of an exclusive or.
pub bit_xor_halves :
    (a b : ℕ) → (bit_xor a b / 2 ≡ bit_xor (a / 2) (b / 2)) × (bit_xor a b % 2 ≡ (a + b) % 2)
bit_xor_halves a b = omega (arith, bit_xor_digit a b)

bit_xor_assoc_fuel : (n a b c : ℕ) → a ≤ n → bit_xor (bit_xor a b) c ≡ bit_xor a (bit_xor b c)
bit_xor_assoc_fuel n zero b c h = rw (zero-bit_xor b, zero-bit_xor (bit_xor b c)) refl
bit_xor_assoc_fuel zero (suc a) b c h = absurd (omega arith)
bit_xor_assoc_fuel (suc n) (suc a) b c h = omega (
  arith,
  bit_xor_digit (bit_xor (suc a) b) c,
  bit_xor_digit (suc a) (bit_xor b c),
  ap (λ t. bit_xor t (c / 2)) (bit_xor_halves (suc a) b).0,
  bit_xor_assoc_fuel n (suc a / 2) (b / 2) (c / 2) (omega arith),
  ap (bit_xor (suc a / 2)) (bit_xor_halves b c).0,
  bit_xor_halves (suc a) b,
  bit_xor_halves b c,
)

pub bit_xor_assoc : (a b c : ℕ) → bit_xor (bit_xor a b) c ≡ bit_xor a (bit_xor b c)
bit_xor_assoc a b c = bit_xor_assoc_fuel a a b c (omega arith)

-- An exclusive or has no more digits than its operands.
pub bit_xor-lt : (k a b : ℕ) → a < 2 ^ k → b < 2 ^ k → bit_xor a b < 2 ^ k
bit_xor-lt zero a b h k =
    let p : a ≡ 0 = omega arith in let q : b ≡ 0 = omega arith in rw (p, q) (omega arith)
bit_xor-lt (suc k) a b h l = omega (
  arith,
  pow-suc 2 k,
  bit_xor_digit a b,
  bit_xor-lt k (a / 2) (b / 2) (omega (arith, pow-suc 2 k)) (omega (arith, pow-suc 2 k)),
)

-- Digits that do not meet: the low `k` of `x`, and `y` above them.
pub bit_or_disjoint : (k x y : ℕ) → x < 2 ^ k → bit_or x (y * 2 ^ k) ≡ x + y * 2 ^ k
bit_or_disjoint zero x y h =
    let p : x ≡ 0 = omega arith in omega (arith, ap (λ t. bit_or t (y * 1)) p, zero-bit_or (y * 1))
bit_or_disjoint (suc k) x y h = omega (
  arith,
  bit_or_step x (y * 2 ^ suc k),
  ap (λ t. bit_or (x / 2) t) halved,
  bit_or_disjoint k (x / 2) y (omega (arith, pow-suc 2 k)),
  ap (λ t. y * t) (pow-suc 2 k),
)
  where
    halved : y * 2 ^ suc k / 2 ≡ y * 2 ^ k
    halved = omega (arith, ap (λ t. y * t) (pow-suc 2 k))

pub bit_xor_disjoint : (k x y : ℕ) → x < 2 ^ k → bit_xor x (y * 2 ^ k) ≡ x + y * 2 ^ k
bit_xor_disjoint zero x y h =
    let p : x ≡ 0 = omega arith in
    omega (arith, ap (λ t. bit_xor t (y * 1)) p, zero-bit_xor (y * 1))
bit_xor_disjoint (suc k) x y h = omega (
  arith,
  bit_xor_digit x (y * 2 ^ suc k),
  ap (λ t. bit_xor (x / 2) t) halved,
  bit_xor_disjoint k (x / 2) y (omega (arith, pow-suc 2 k)),
  ap (λ t. y * t) (pow-suc 2 k),
)
  where
    halved : y * 2 ^ suc k / 2 ≡ y * 2 ^ k
    halved = omega (arith, ap (λ t. y * t) (pow-suc 2 k))

and_zero_below : (bound x : ℕ) → x < bound → bit_and x 0 ≡ 0
and_zero_below zero x h = absurd (omega (arith, h))
and_zero_below (suc bound) zero h = zero-bit_and 0
and_zero_below (suc bound) (suc y) h =
    and_low y 0 ∙ omega (arith, and_zero_below bound (suc y / 2) (omega (arith, h)))

pow-pos : (k : ℕ) → 0 < 2 ^ k
pow-pos zero = omega arith
pow-pos (suc k) = omega (arith, pow-suc 2 k, pow-pos k)

-- The number of `k` ones.
abbrev ones : ℕ → ℕ
ones zero = 0
ones (suc k) = ones k * 2 + 1

bit_and-ones : (k a : ℕ) → bit_and a (ones k) ≡ a % 2 ^ k
bit_and-ones zero a = omega (arith, and_zero_below (suc a) a (omega arith))
bit_and-ones (suc k) a = omega (
  arith,
  pow-suc 2 k,
  bit_and_step a (ones k * 2 + 1),
  ap (bit_and (a / 2)) halved,
  bit_and-ones k (a / 2),
  split_mod,
)
  where
    halved : (ones k * 2 + 1) / 2 ≡ ones k
    halved = omega arith

    low : ℕ
    low = a / 2 % 2 ^ k * 2 + a % 2

    regroup : a ≡ low + 2 ^ suc k * (a / 2 / 2 ^ k)
    regroup =
        omega (arith, div-add-mod (a / 2) (2 ^ k), ap (λ t. t * (a / 2 / 2 ^ k)) (pow-suc 2 k))

    bound : low < 2 ^ suc k
    bound = omega (arith, pow-suc 2 k, mod-lt (a / 2) (pow-pos k))

    split_mod : a % 2 ^ suc k ≡ a / 2 % 2 ^ k * 2 + a % 2
    split_mod =
        ap (λ t. t % 2 ^ suc k) regroup
        ∙ add-mul-mod_self_left low (2 ^ suc k) (a / 2 / 2 ^ k)
        ∙ mod-eq_of_lt bound

-- `& 0xff` is the remainder by 256.
pub byte_mask : (a : ℕ) → bit_and a 0xff ≡ a % 256
byte_mask a = bit_and-ones 8 a

pub bit_and-one : (a : ℕ) → bit_and a 1 ≡ a % 2
bit_and-one a = bit_and-ones 1 a

halve_first : (a k : ℕ) → a / 2 ^ suc k ≡ a / 2 / 2 ^ k
halve_first a k =
    let e : 2 ^ suc k ≡ 2 * 2 ^ k = omega (arith, pow-suc 2 k) in
    rw e (sym (div-div-eq-div-mul a 2 (2 ^ k)))

-- A shift to the right passes through an exclusive or.
pub bit_xor-div : (k a b : ℕ) → bit_xor a b / 2 ^ k ≡ bit_xor (a / 2 ^ k) (b / 2 ^ k)
bit_xor-div zero a b = omega (arith, ap₂ bit_xor (div_one a) (div_one b))
  where
    div_one : (n : ℕ) → n / 1 ≡ n
    div_one n = omega arith
bit_xor-div (suc k) a b =
    halve_first (bit_xor a b) k
    ∙ ap (λ t. t / 2 ^ k) (bit_xor_halves a b).0
    ∙ bit_xor-div k (a / 2) (b / 2)
    ∙ sym (ap₂ bit_xor (halve_first a k) (halve_first b k))
