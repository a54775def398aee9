-- ===== src/Outbox/Policy.antt =====
-- The retry delay, the front's cooldown and the rate limit of the outbox, src/pqueue/outbox.cpp.
-- The random source is a function from a range to a sample; its contract is not assumed here.
use pqueue.Base.{
  ℕ, zero, suc, ◌+◌, ◌-◌, ◌*◌, ◌/◌, ◌%◌, ◌^◌, Bool, true, not, ◌||◌, Option, none, some, ltb, leb,
  ◌==◌, if◌then◌else◌,
}

pub record OutboxConfig : Type 0 where
  pub max_drain_attempts_per_second : ℕ
  pub initial_retry_delay_ms : ℕ
  pub max_retry_delay_ms : ℕ
  pub jitter_pct : ℕ
  pub max_corrupt_drops_per_lifetime : ℕ

-- `for (i = 0; i < exponent && v < config_.maxRetryDelayMs; ++i) v *= 2;` The delay is below 2^32
-- before each doubling, so the 64 bits of `v` do not overflow.
unfoldable pub double_until : ℕ → ℕ → ℕ → ℕ
double_until zero max v = v
double_until (suc n) max v = if ltb v max then double_until n max (v * 2) else v

unfoldable pub base_delay : OutboxConfig → ℕ → ℕ → ℕ
unfolding double_until
base_delay config exponent server_hint_ms =
    if ltb 0 server_hint_ms
    then (if ltb server_hint_ms config.max_retry_delay_ms
        then server_hint_ms
        else config.max_retry_delay_ms)
    else let v = double_until exponent config.max_retry_delay_ms config.initial_retry_delay_ms in
      if ltb v config.max_retry_delay_ms then v else config.max_retry_delay_ms

-- The value, or `std::numeric_limits<std::uint32_t>::max()` where it is larger.
abbrev pub saturate_u32 : ℕ → ℕ
saturate_u32 v = if ltb 0xffff_ffff v then 0xffff_ffff else v

unfoldable pub jittered : OutboxConfig → (ℕ → ℕ) → ℕ → ℕ → ℕ
jittered config rand base jitter_range =
    let sample = rand (saturate_u32 (jitter_range * 2)) in
    if ltb sample jitter_range
    then (if ltb sample base then base - sample else 0)
    else if leb (sample - jitter_range) (config.max_retry_delay_ms - base)
    then base + (sample - jitter_range)
    else config.max_retry_delay_ms

unfoldable pub apply_jitter : OutboxConfig → Option (ℕ → ℕ) → ℕ → ℕ
unfolding jittered
apply_jitter config none base = base
apply_jitter config (some rand) base =
    if (config.jitter_pct == 0) || (base == 0)
    then base
    else if base * config.jitter_pct / 100 == 0
    then base
    else jittered config rand base (saturate_u32 (base * config.jitter_pct / 100))

unfoldable pub compute_retry_delay : OutboxConfig → Option (ℕ → ℕ) → ℕ → ℕ → ℕ
unfolding base_delay apply_jitter
compute_retry_delay config rand exponent server_hint_ms =
    apply_jitter config rand (base_delay config exponent server_hint_ms)

-- The window of the rate limit; `start` is `drainWindowStartMs_` where there is a window.
pub record DrainWindow : Type 0 where
  pub has_window : Bool
  pub start_ms : ℕ
  pub attempts : ℕ

-- `nowMs - drainWindowStartMs_` on 64 bits, of times below 2^64.
abbrev pub elapsed : DrainWindow → ℕ → ℕ
elapsed w now = (now + (2 ^ 64 - w.start_ms)) % 2 ^ 64

abbrev pub max_rate : OutboxConfig → ℕ
max_rate config =
    if config.max_drain_attempts_per_second == 0 then 1 else config.max_drain_attempts_per_second

unfoldable pub drain_rate_allows : OutboxConfig → DrainWindow → ℕ → Bool
drain_rate_allows config w now =
    if not w.has_window
    then true
    else if leb 1000 (elapsed w now)
    then true
    else ltb w.attempts (max_rate config)

abbrev pub opened : DrainWindow → ℕ → DrainWindow
opened w now =
    if not w.has_window || leb 1000 (elapsed w now)
    then record { has_window = true; start_ms = now; attempts = 0 }
    else w

unfoldable pub record_drain_attempt : DrainWindow → ℕ → DrainWindow
record_drain_attempt w now =
    let v = opened w now in
    if v.attempts == 0xffff then v else record v { attempts = v.attempts + 1 }

unfoldable pub drain_rate_remaining_ms : DrainWindow → ℕ → ℕ
drain_rate_remaining_ms w now =
    if not w.has_window || leb 1000 (elapsed w now) then 0 else 1000 - elapsed w now
