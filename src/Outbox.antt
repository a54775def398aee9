-- ===== src/Outbox.antt =====
-- The outbox, src/pqueue/outbox.cpp: a payload is sent at once or queued in an envelope, and queued
-- payloads are sent when they are due. The send callback, the clock and the random source are
-- parameters; one call of an operation reads the clock once and sends once at most, so the time is
-- an argument. `none` is a callback that is not set. Events that are emitted are left out. A send
-- decision is one of the three of its enumeration, so what follows the switch is not reached.
pub mod Policy
pub mod PolicyLaws
pub mod Delivery
pub mod Batch
pub mod Submit
pub mod Submission
use pqueue.Base.{
  ℕ, zero, suc, ◌+◌, ◌-◌, ◌%◌, ◌^◌, ◌≡◌, Bool, true, false, not, ◌&&◌, ◌||◌, List, [], ◌∷◌, Option,
  none, some, ltb, ◌==◌, if◌then◌else◌, length,
}
use pqueue.Bytes.{Bytes}
use pqueue.LogFormat.{to_u32}
use pqueue.Status.{Status, StatusCode, success, failure, is_ok}
use pqueue.Envelope.{encode_envelope, decode_envelope, DecodedEnvelope}
use pqueue.Queue.{QueueStore, Config, Queue, enqueue, peek, pop, stats_result, is_queue_full}
use pqueue.Outbox.Policy.{
  OutboxConfig, compute_retry_delay, DrainWindow, drain_rate_allows, record_drain_attempt,
}

pub data SendDecision : Type 0 where
  sent retry_later drop : SendDecision

pub record SendResult : Type 0 where
  pub decision : SendDecision
  pub retry_after_ms : ℕ

-- The payload and the number of attempts to what the transport answers.
abbrev pub SendCallback : Type 0
SendCallback = Bytes → ℕ → SendResult

pub data SubmitStatus : Type 0 where
  submit_sent queued submit_dropped full send_error : SubmitStatus

pub record SubmitResult : Type 0 where
  pub status : SubmitStatus
  pub detail : Status

pub record DrainResult : Type 0 where
  pub attempts : ℕ
  pub sent_count : ℕ
  pub dropped_count : ℕ
  pub corrupt_dropped : ℕ
  pub removed_queued_bytes : ℕ
  pub rate_limited : Bool
  pub not_due : Bool
  pub queue_error : Bool
  pub send_error : Bool
  pub detail : Status

abbrev pub no_drain : DrainResult
no_drain = record {
  attempts = 0;
  sent_count = 0;
  dropped_count = 0;
  corrupt_dropped = 0;
  removed_queued_bytes = 0;
  rate_limited = false;
  not_due = false;
  queue_error = false;
  send_error = false;
  detail = success;
}

abbrev pub is_empty_code : StatusCode → Bool
is_empty_code StatusCode.queue_empty = true
is_empty_code _ = false

abbrev pub is_corrupt_front_code : StatusCode → Bool
is_corrupt_front_code StatusCode.invalid_record = true
is_corrupt_front_code StatusCode.crc_mismatch = true
is_corrupt_front_code _ = false

module _ (st : QueueStore) (config : OutboxConfig) (queue_config : Config) where
  pub record Outbox : Type 0 where
    pub queue : Queue st
    pub has_front_cooldown : Bool
    pub front_next_attempt_ms : ℕ
    pub front_attempts : ℕ
    pub window : DrainWindow
    pub corrupt_drops : ℕ

  unfoldable pub clear_front_cooldown : Outbox → Outbox
  clear_front_cooldown o = record o {
    has_front_cooldown = false;
    front_next_attempt_ms = 0;
    front_attempts = 0;
  }

  unfoldable pub set_front_cooldown : ℕ → Outbox → Outbox
  set_front_cooldown next o = record o {
    has_front_cooldown = true;
    front_next_attempt_ms = next % 2 ^ 64;
  }

  abbrev pub front_is_cooling_down : Outbox → ℕ → Bool
  front_is_cooling_down o now = o.has_front_cooldown && ltb now o.front_next_attempt_ms

  abbrev pub can_drop_corrupt : Outbox → Bool
  can_drop_corrupt o =
      not (config.max_corrupt_drops_per_lifetime == 0)
      && ltb o.corrupt_drops config.max_corrupt_drops_per_lifetime

  -- What follows the pop of a corrupt front record. `corruptDropsThisLifetime_` is below the limit,
  -- a 16-bit number, and does not wrap.
  unfoldable pub after_corrupt_pop : Status → ℕ → Outbox → Status × Queue st → DrainResult × Outbox
  unfolding clear_front_cooldown
  after_corrupt_pop corrupt record_bytes o (popped, q) =
      if is_ok popped
      then (
        record no_drain {
          corrupt_dropped = 1;
          removed_queued_bytes = record_bytes;
          detail = corrupt;
        },
        record (clear_front_cooldown o) { queue = q; corrupt_drops = o.corrupt_drops + 1 },
      )
      else (record no_drain { queue_error = true; detail = popped }, record o { queue = q })

  unfoldable pub drop_corrupt_front : Status → ℕ → Outbox → DrainResult × Outbox
  unfolding after_corrupt_pop
  drop_corrupt_front corrupt record_bytes o =
      if can_drop_corrupt o
      then after_corrupt_pop corrupt record_bytes o (pop st o.queue)
      else (record no_drain { queue_error = true; detail = corrupt }, o)

  -- What follows the pop of a record that was sent or dropped.
  unfoldable pub after_pop : DrainResult → Outbox → Status × Queue st → DrainResult × Outbox
  unfolding clear_front_cooldown
  after_pop done o (popped, q) =
      if is_ok popped then (done, record (clear_front_cooldown o) { queue = q }) else (
        record no_drain { attempts = 1; queue_error = true; detail = popped },
        record o { queue = q },
      )

  -- `if (frontAttempts_ < std::numeric_limits<std::uint8_t>::max()) frontAttempts_++;`
  abbrev one_more : ℕ → ℕ
  one_more attempts = if ltb attempts 0xff then attempts + 1 else attempts

  unfoldable pub after_send : Option (ℕ → ℕ) → ℕ → ℕ → SendResult → Outbox → DrainResult × Outbox
  unfolding after_pop set_front_cooldown
  after_send rand now record_bytes answer o = elim answer.decision [
    | sent ↦
        after_pop
          (record no_drain { attempts = 1; sent_count = 1; removed_queued_bytes = record_bytes }) o
          (pop st o.queue)
    | drop ↦
        after_pop
          (record no_drain { attempts = 1; dropped_count = 1; removed_queued_bytes = record_bytes })
          o (pop st o.queue)
    | retry_later ↦
        let attempts = one_more o.front_attempts in
        (
          record no_drain { attempts = 1 },
          set_front_cooldown
              (now + compute_retry_delay config rand (attempts - 1) answer.retry_after_ms)
              (record o { front_attempts = attempts }),
        )
  ]

  -- A front record that was read: decoded, due and within the rate, it is sent.
  unfoldable pub drain_decoded :
      SendCallback
      → Option (ℕ → ℕ)
      → Bool
      → ℕ
      → ℕ
      → Option DecodedEnvelope
      → Outbox
      → DrainResult × Outbox
  unfolding after_send drop_corrupt_front
  drain_decoded send rand enforce now record_bytes none o =
      drop_corrupt_front (failure StatusCode.decode_failed) record_bytes o
  drain_decoded send rand enforce now record_bytes (some decoded) o =
      if front_is_cooling_down o now
      then (record no_drain { not_due = true }, o)
      else if enforce && not (drain_rate_allows config o.window now)
      then (record no_drain { rate_limited = true }, o)
      else after_send rand now record_bytes (send decoded.payload o.front_attempts)
          (record o { window = record_drain_attempt o.window now })

  unfoldable pub drain_peeked :
      SendCallback → Option (ℕ → ℕ) → Bool → ℕ → Status → Bytes → Outbox → DrainResult × Outbox
  unfolding drain_decoded drop_corrupt_front clear_front_cooldown
  drain_peeked send rand enforce now outcome bytes o =
      if is_ok outcome
      then drain_decoded send rand enforce now (to_u32 (length bytes)) (decode_envelope bytes) o
      else if is_empty_code outcome.code
      then (no_drain, clear_front_cooldown o)
      else if is_corrupt_front_code outcome.code
      then drop_corrupt_front outcome 0 o
      else (record no_drain { queue_error = true; detail = outcome }, o)

  unfoldable pub drain_one :
      Option SendCallback → Option (ℕ → ℕ) → Bool → Option ℕ → Outbox → DrainResult × Outbox
  unfolding drain_peeked
  drain_one (some send) rand enforce (some now) o =
      let ((outcome, bytes), q) = peek st o.queue in
      drain_peeked send rand enforce now outcome bytes (record o { queue = q })
  drain_one _ rand enforce _ o =
      (record no_drain { send_error = true; detail = failure StatusCode.send_failed }, o)

  unfoldable pub queued_as : Status → SubmitResult
  queued_as outcome =
      if is_ok outcome
      then record { status = queued; detail = success }
      else if is_queue_full outcome.code
      then record { status = full; detail = outcome }
      else record { status = send_error; detail = outcome }

  unfoldable pub enqueue_encoded : Option Bytes → Outbox → SubmitResult × Outbox
  unfolding queued_as
  enqueue_encoded none o =
      (record { status = send_error; detail = failure StatusCode.encode_failed }, o)
  enqueue_encoded (some bytes) o =
      let (outcome, q) = enqueue st queue_config bytes o.queue in
      (queued_as outcome, record o { queue = q })

  unfoldable pub enqueue_record : Bytes → ℕ → Outbox → SubmitResult × Outbox
  unfolding enqueue_encoded
  enqueue_record payload attempts o = enqueue_encoded (encode_envelope attempts payload) o

  -- The sums of `drainUpTo`. A round adds 1 at most to each 16-bit counter, and there are at most
  -- 65535 rounds, so that they do not wrap.
  unfoldable pub add_drain : DrainResult → DrainResult → DrainResult
  add_drain total current = record {
    attempts = total.attempts + current.attempts;
    sent_count = total.sent_count + current.sent_count;
    dropped_count = total.dropped_count + current.dropped_count;
    corrupt_dropped = total.corrupt_dropped + current.corrupt_dropped;
    removed_queued_bytes = to_u32 (total.removed_queued_bytes + current.removed_queued_bytes);
    rate_limited = total.rate_limited || current.rate_limited;
    not_due = total.not_due || current.not_due;
    queue_error = total.queue_error || current.queue_error;
    send_error = total.send_error || current.send_error;
    detail = if is_ok current.detail then total.detail else current.detail;
  }

  unfoldable pub should_stop : DrainResult → Bool
  should_stop current =
      let made_progress =
        not (current.sent_count == 0)
        || (not (current.dropped_count == 0) || not (current.corrupt_dropped == 0)) in
      not made_progress
      || (current.not_due || (current.rate_limited || (current.queue_error || current.send_error)))

  unfoldable pub after_round :
      (DrainResult → Outbox → DrainResult × Outbox)
      → DrainResult
      → DrainResult × Outbox
      → DrainResult × Outbox
  unfolding add_drain should_stop
  after_round next total (current, o) =
      if should_stop current then (add_drain total current, o) else next (add_drain total current) o

  -- Round `i` of the loop, with `n` rounds left. Each round asks the callbacks again.
  unfoldable pub drain_rounds :
      ℕ
      → (ℕ → Option SendCallback)
      → (ℕ → Option (ℕ → ℕ))
      → (ℕ → Option ℕ)
      → ℕ
      → DrainResult
      → Outbox
      → DrainResult × Outbox
  unfolding after_round drain_one
  drain_rounds zero sends rands clocks i total o = (total, o)
  drain_rounds (suc n) sends rands clocks i total o =
      after_round (drain_rounds n sends rands clocks (i + 1)) total
        (drain_one (sends i) (rands i) true (clocks i) o)

  unfoldable pub drain_up_to :
      ℕ
      → (ℕ → Option SendCallback)
      → (ℕ → Option (ℕ → ℕ))
      → (ℕ → Option ℕ)
      → Outbox
      → DrainResult × Outbox
  unfolding drain_rounds
  drain_up_to max_drain_attempts sends rands clocks o =
      drain_rounds (if max_drain_attempts == 0 then 1 else max_drain_attempts) sends rands clocks 0
        no_drain o
