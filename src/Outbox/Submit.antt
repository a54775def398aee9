-- ===== src/Outbox/Submit.antt =====
-- Outbox::submit, src/pqueue/outbox.cpp: a payload is sent at once if nothing is queued, and queued
-- otherwise or if it is to be tried again. The span's data are taken to be there if its length is not
-- 0. The callbacks are parameters, as in `Outbox`; each is asked once at most.
use pqueue.Base.{ℕ, ◌+◌, Bool, true, false, ◌&&◌, Option, some, ltb, ◌==◌, if◌then◌else◌}
use pqueue.Bytes.{Bytes}
use pqueue.Status.{StatusCode, success, failure, is_ok}
use pqueue.Queue.{QueueStore, Config, stats_result}
use pqueue.Outbox.Policy.{OutboxConfig, compute_retry_delay}
use pqueue.Outbox.{
  sent, retry_later, drop, SendResult, SendCallback, SubmitStatus, submit_sent, queued,
  submit_dropped, send_error, SubmitResult, Outbox, set_front_cooldown, enqueue_record,
}

abbrev pub is_queued : SubmitStatus → Bool
is_queued queued = true
is_queued _ = false

module _ (st : QueueStore) (config : OutboxConfig) (queue_config : Config) where
  -- What follows the enqueue of a payload that is to be tried again: alone in the queue, it waits.
  unfoldable pub after_queued :
      Option (ℕ → ℕ)
      → ℕ
      → ℕ
      → Bool
      → SubmitResult × Outbox st config queue_config
      → SubmitResult × Outbox st config queue_config
  unfolding set_front_cooldown
  after_queued rand now hint was_empty (result, o) =
      if is_queued result.status && was_empty
      then (
        result,
        set_front_cooldown st config queue_config (now + compute_retry_delay config rand 0 hint)
            (record o { front_attempts = 1 }),
      )
      else (result, o)

  -- `queue_.stats().count`, which is 0 if the queue cannot be asked, and the enqueue.
  unfoldable pub queue_retry :
      Option (ℕ → ℕ)
      → ℕ
      → Bytes
      → ℕ
      → Outbox st config queue_config
      → SubmitResult × Outbox st config queue_config
  unfolding after_queued
  queue_retry rand now payload hint o =
      let ((outcome, count, free), q) = stats_result st o.queue in
      after_queued rand now hint (count == 0)
        (enqueue_record st config queue_config payload 0 (record o { queue = q }))

  unfoldable pub after_live_send :
      Option (ℕ → ℕ)
      → ℕ
      → Bytes
      → SendResult
      → Outbox st config queue_config
      → SubmitResult × Outbox st config queue_config
  unfolding queue_retry
  after_live_send rand now payload answer o = elim answer.decision [
    | sent ↦ (record { status = submit_sent; detail = success }, o)
    | drop ↦ (record { status = submit_dropped; detail = failure StatusCode.dropped }, o)
    | retry_later ↦ queue_retry rand now payload answer.retry_after_ms o
  ]

  -- Behind the question how many records are queued.
  unfoldable pub submit_counted :
      SendCallback
      → Option (ℕ → ℕ)
      → ℕ
      → Bytes
      → Bool
      → Outbox st config queue_config
      → SubmitResult × Outbox st config queue_config
  unfolding after_live_send
  submit_counted send rand now payload has_records o =
      if has_records
      then enqueue_record st config queue_config payload 0 o
      else after_live_send rand now payload (send payload 0) o

  unfoldable pub submit :
      Option SendCallback
      → Option (ℕ → ℕ)
      → Option ℕ
      → Bytes
      → Outbox st config queue_config
      → SubmitResult × Outbox st config queue_config
  unfolding submit_counted
  submit (some send) rand (some now) payload o =
      let ((outcome, count, free), q) = stats_result st o.queue in
      submit_counted send rand now payload (is_ok outcome && ltb 0 count) (record o { queue = q })
  submit _ rand _ payload o =
      (record { status = send_error; detail = failure StatusCode.send_failed }, o)
