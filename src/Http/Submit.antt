-- ===== src/Http/Submit.antt =====
-- The operations of the HTTP outbox, src/pqueue/http/outbox.cpp: a request is encoded and submitted
-- to the outbox, whose send callback posts it. The outbox is configured for sending.
use pqueue.Base.{ℕ, Option, none, some}
use pqueue.Bytes.{Bytes}
use pqueue.Status.{StatusCode, failure}
use pqueue.Queue.{QueueStore, Config, FullQueuePolicy}
use pqueue.Outbox.Policy.{OutboxConfig}
use pqueue.Outbox.{SendDecision, SubmitResult, send_error, Outbox}
use pqueue.Outbox.Submit.{submit}
use pqueue.Http.{method_post, encoding_raw, encoding_compact, encode_request_envelope}
use pqueue.Http.Sending.{Response, send_callback}

unfoldable pub resolve_queue_config : Config → FullQueuePolicy → Config
resolve_queue_config queue full_queue_policy = record queue {
  full_queue_policy = full_queue_policy;
}

module _ (base_url : Bytes) (expand_body : Option (Bytes → Bytes → Option Bytes))
    (classify : Option (Response → SendDecision)) (post : Bytes → Bytes → Response)
    (st : QueueStore) (config : OutboxConfig) (queue_config : Config) where
  unfoldable pub submit_encoded :
      Option (ℕ → ℕ)
      → ℕ
      → Option Bytes
      → Outbox st config queue_config
      → SubmitResult × Outbox st config queue_config
  unfolding submit
  submit_encoded rand now none o =
      (record { status = send_error; detail = failure StatusCode.encode_failed }, o)
  submit_encoded rand now (some encoded) o =
      submit st config queue_config (some (send_callback base_url expand_body classify post)) rand
        (some now) encoded o

  unfoldable pub submit_post :
      Option (ℕ → ℕ)
      → ℕ
      → Bytes
      → Bytes
      → Outbox st config queue_config
      → SubmitResult × Outbox st config queue_config
  unfolding submit_encoded encode_request_envelope
  submit_post rand now path body o =
      submit_encoded rand now
        (encode_request_envelope
          (record { method = method_post; encoding = encoding_raw; path = path; body = body }))
        o

  -- The span's data are taken to be there if its length is not 0.
  unfoldable pub submit_compact_post :
      Option (ℕ → ℕ)
      → ℕ
      → Bytes
      → Bytes
      → Outbox st config queue_config
      → SubmitResult × Outbox st config queue_config
  unfolding submit_encoded encode_request_envelope
  submit_compact_post rand now path compact o =
      submit_encoded rand now
        (encode_request_envelope (record {
          method = method_post;
          encoding = encoding_compact;
          path = path;
          body = compact;
        }))
        o
