-- ===== src/Outbox/Submission.antt =====
-- What a submission does to the store of the queue, whatever it and the callbacks answer.
use pqueue.Base.{ℕ, ◌≡◌, ◌⊎◌}
use pqueue.Bytes.{Bytes}
use pqueue.Status.{Status}
use pqueue.Queue.{QueueStore, Config, drop_oldest}
use pqueue.Queue.Tally.{one_if, Did}
use pqueue.Outbox.Policy.{OutboxConfig}
use pqueue.Outbox.{SubmitResult}
use pqueue.Outbox.Submit.{is_queued}
use pqueue.Outbox.Delivery.{Watching}

module _ (st : QueueStore) (config : OutboxConfig) (queue_config : Config) (payload : Bytes) where
  -- The store confirmed one enqueue if the payload is reported as queued and none otherwise, and
  -- pops under the policy to drop the oldest only; all calls were made under the lock, which was
  -- given back.
  abbrev pub Submitted :
      Watching st config queue_config → SubmitResult × Watching st config queue_config → Type 0
  Submitted o r =
      (k : ℕ) × Did st k (one_if (is_queued r.0.status)) o.queue r.1.queue
      × ((k ≡ 0) ⊎ (queue_config.full_queue_policy ≡ drop_oldest))
