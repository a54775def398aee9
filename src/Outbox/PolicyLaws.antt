-- ===== src/Outbox/PolicyLaws.antt =====
-- Bounds of the retry delay and of the rate limit.
use pqueue.Base.{
  ℕ, zero, suc, ◌+◌, ◌*◌, ◌/◌, ◌^◌, ◌≤◌, ◌<◌, ◌≡◌, sym, ap, ◌∙◌, true, false, Option, none, some,
  arith, min, ltb, inl, inr, Bool-cases, ◌==◌, ◌||◌,
}
use native.Mathlib.Nat.{pow-suc}
use pqueue.Outbox.Policy.{
  OutboxConfig, double_until, base_delay, jittered, apply_jitter, compute_retry_delay, saturate_u32,
  DrainWindow, max_rate, drain_rate_allows, record_drain_attempt, drain_rate_remaining_ms,
}

base_delay-le :
    (config : OutboxConfig) (exponent hint : ℕ)
    → base_delay config exponent hint ≤ config.max_retry_delay_ms
unfolding base_delay
base_delay-le config exponent hint = ground arith

jittered-le :
    (config : OutboxConfig) (rand : ℕ → ℕ) (base range : ℕ)
    → base ≤ config.max_retry_delay_ms
    → jittered config rand base range ≤ config.max_retry_delay_ms
unfolding jittered
jittered-le config rand base range h = ground arith

apply_jitter-le :
    (config : OutboxConfig) (rand : Option (ℕ → ℕ)) (base : ℕ)
    → base ≤ config.max_retry_delay_ms
    → apply_jitter config rand base ≤ config.max_retry_delay_ms
unfolding apply_jitter
apply_jitter-le config none base h = h
apply_jitter-le config (some rand) base h =
    elim (Bool-cases ((config.jitter_pct == 0) || (base == 0))) [
      | inl e ↦ rw e h
      | inr e ↦ elim (Bool-cases (base * config.jitter_pct / 100 == 0)) [
        | inl f ↦ rw (e, f) h
        | inr f ↦
            rw (e, f)
              (jittered-le config rand base (saturate_u32 (base * config.jitter_pct / 100)) h)
      ]
    ]

-- No retry delay is above the configured maximum, whatever the server's hint, the number of
-- attempts and the random source.
pub compute_retry_delay-le :
    (config : OutboxConfig) (rand : Option (ℕ → ℕ)) (exponent hint : ℕ)
    → compute_retry_delay config rand exponent hint ≤ config.max_retry_delay_ms
unfolding compute_retry_delay
compute_retry_delay-le config rand exponent hint =
    apply_jitter-le config rand (base_delay config exponent hint)
      (base_delay-le config exponent hint)

double_power : (n v : ℕ) → v * 2 ^ suc n ≡ v * 2 * 2 ^ n
double_power n v = grind (arith, pow-suc 2 n)

power-grows : (n v : ℕ) → v ≤ v * 2 ^ n
power-grows zero v = omega arith
power-grows (suc n) v = omega (arith, double_power n v, power-grows n (v * 2))

double_until-min : (n max v : ℕ) → min (double_until n max v) max ≡ min (v * 2 ^ n) max
unfolding double_until
double_until-min zero max v = omega arith
double_until-min (suc n) max v = elim (Bool-cases (ltb v max)) [
  | inl e ↦ rw e (double_until-min n max (v * 2) ∙ ap (λ t. min t max) (sym (double_power n v)))
  | inr e ↦ rw e (ground (arith, e, power-grows (suc n) v))
]

-- Without a hint and without jitter the delay doubles with each attempt, up to the maximum.
pub compute_retry_delay-exponential :
    (config : OutboxConfig) (exponent : ℕ)
    → compute_retry_delay config none exponent 0
      ≡ min (config.initial_retry_delay_ms * 2 ^ exponent) config.max_retry_delay_ms
unfolding compute_retry_delay apply_jitter base_delay
compute_retry_delay-exponential config exponent =
    ground
      (arith, double_until-min exponent config.max_retry_delay_ms config.initial_retry_delay_ms)

-- A window never counts more attempts than the rate limit, if each attempt was allowed.
pub record_drain_attempt-le :
    (config : OutboxConfig) (w : DrainWindow) (now : ℕ)
    → w.attempts ≤ max_rate config
    → drain_rate_allows config w now ≡ true
    → (record_drain_attempt w now).attempts ≤ max_rate config
unfolding drain_rate_allows record_drain_attempt
record_drain_attempt-le config w now h allowed = ground arith

-- An attempt that is refused is allowed when the remaining time has passed, which is a second at
-- most and not nothing.
pub drain_rate_remaining-allows :
    (config : OutboxConfig) (w : DrainWindow) (now : ℕ)
    → w.start_ms ≤ now
    → now + 1000 < 2 ^ 64
    → drain_rate_allows config w now ≡ false
    → (drain_rate_allows config w (now + drain_rate_remaining_ms w now) ≡ true)
      × (0 < drain_rate_remaining_ms w now)
      × (drain_rate_remaining_ms w now ≤ 1000)
unfolding drain_rate_allows drain_rate_remaining_ms
drain_rate_remaining-allows config w now after small refused = ground arith
