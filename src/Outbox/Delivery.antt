-- ===== src/Outbox/Delivery.antt =====
-- What a drain and a submission do to the store of the queue, whatever it and the callbacks answer.
use pqueue.Base.{
  ℕ, ◌+◌, ◌≡◌, refl, sym, ap, ◌∙◌, inl, inr, Bool, not, ◌&&◌, Option, none, some, length,
  Bool-cases,
}
use pqueue.Bytes.{Bytes}
use pqueue.LogFormat.{to_u32}
use pqueue.Status.{Status, StatusCode, failure, is_ok}
use pqueue.Envelope.{DecodedEnvelope, decode_envelope}
use pqueue.Queue.{QueueStore, Config, peek, pop}
use pqueue.Queue.Tally.{tallied, one_if, Did, IsIdle, Did-nothing, Did-after, Did-IsIdle}
use pqueue.Queue.Watched.{Did-exactly, one_if_ok, pop-Did, peek-Did}
use pqueue.Outbox.Policy.{OutboxConfig, drain_rate_allows, record_drain_attempt}
use pqueue.Outbox.{
  SendDecision, sent, retry_later, drop, SendCallback, DrainResult, Outbox, can_drop_corrupt,
  after_corrupt_pop, drop_corrupt_front, after_pop, after_send, drain_decoded, drain_peeked,
  drain_one, no_drain, clear_front_cooldown, set_front_cooldown, front_is_cooling_down,
  is_empty_code, is_corrupt_front_code,
}

-- The records that a drain says it removed.
abbrev pub removed : DrainResult → ℕ
removed r = r.sent_count + r.dropped_count + r.corrupt_dropped

module _ (st : QueueStore) (config : OutboxConfig) (queue_config : Config) where
  abbrev pub Watching : Type 0
  Watching = Outbox (tallied st) config queue_config

  -- Between two states of the outbox, the store confirmed as many pops as the drain says that it
  -- removed records, and no enqueue; all calls were made under the lock, which was given back.
  abbrev pub Drained : Watching → DrainResult × Watching → Type 0
  Drained o r = Did st (removed r.0) 0 o.queue r.1.queue

  after_pop-Drained :
      (done : DrainResult) (o : Watching)
      → removed done ≡ 1
      → IsIdle st o.queue
      → Drained o (after_pop (tallied st) config queue_config done o (pop (tallied st) o.queue))
  unfolding after_pop clear_front_cooldown
  after_pop-Drained done o one idle =
      let p = pop (tallied st) o.queue in
      let d = pop-Did st o.queue idle in
      elim (Bool-cases (is_ok p.0)) [
        | inl e ↦ rw e (
            Did-exactly st (one_if_ok p.0) 0 (removed done) 0 o.queue p.1 (ap one_if e ∙ sym one)
              refl d)
        | inr e ↦ rw e (Did-exactly st (one_if_ok p.0) 0 0 0 o.queue p.1 (ap one_if e) refl d)
      ]

  after_corrupt_pop-Drained :
      (corrupt : Status) (size : ℕ) (o : Watching)
      → IsIdle st o.queue
      → Drained o (
          after_corrupt_pop
            (tallied st)
            config
            queue_config
            corrupt
            size
            o
            (pop (tallied st) o.queue))
  unfolding after_corrupt_pop clear_front_cooldown
  after_corrupt_pop-Drained corrupt size o idle =
      let p = pop (tallied st) o.queue in
      let d = pop-Did st o.queue idle in
      elim (Bool-cases (is_ok p.0)) [
        | inl e ↦ rw e (Did-exactly st (one_if_ok p.0) 0 1 0 o.queue p.1 (ap one_if e) refl d)
        | inr e ↦ rw e (Did-exactly st (one_if_ok p.0) 0 0 0 o.queue p.1 (ap one_if e) refl d)
      ]

  drop_corrupt_front-Drained :
      (corrupt : Status) (size : ℕ) (o : Watching)
      → IsIdle st o.queue
      → Drained o (drop_corrupt_front (tallied st) config queue_config corrupt size o)
  unfolding drop_corrupt_front
  drop_corrupt_front-Drained corrupt size o idle =
      elim (Bool-cases (can_drop_corrupt (tallied st) config queue_config o)) [
        | inl e ↦ rw e (after_corrupt_pop-Drained corrupt size o idle)
        | inr e ↦ rw e (Did-nothing st o.queue)
      ]

  after_send-Drained :
      (rand : Option (ℕ → ℕ)) (now size : ℕ) (decision : SendDecision) (hint : ℕ) (o : Watching)
      → IsIdle st o.queue
      → Drained o (
          after_send
            (tallied st)
            config
            queue_config
            rand
            now
            size
            (record { decision = decision; retry_after_ms = hint })
            o)
  unfolding after_send set_front_cooldown
  after_send-Drained rand now size sent hint o idle =
      after_pop-Drained
        (record no_drain { attempts = 1; sent_count = 1; removed_queued_bytes = size }) o refl idle
  after_send-Drained rand now size drop hint o idle =
      after_pop-Drained
        (record no_drain { attempts = 1; dropped_count = 1; removed_queued_bytes = size }) o refl
        idle
  after_send-Drained rand now size retry_later hint o idle = Did-nothing st o.queue

  module _ (send : SendCallback) (rand : Option (ℕ → ℕ)) (enforce : Bool) (now : ℕ) where
    drain_decoded-Drained :
        (size : ℕ) (decoded : Option DecodedEnvelope) (o : Watching)
        → IsIdle st o.queue
        → Drained o
            (drain_decoded (tallied st) config queue_config send rand enforce now size decoded o)
    unfolding drain_decoded
    drain_decoded-Drained size none o idle =
        drop_corrupt_front-Drained (failure StatusCode.decode_failed) size o idle
    drain_decoded-Drained size (some d) o idle =
        elim (Bool-cases (front_is_cooling_down (tallied st) config queue_config o now)) [
          | inl e ↦ rw e (Did-nothing st o.queue)
          | inr e ↦ elim (Bool-cases (enforce && not (drain_rate_allows config o.window now))) [
            | inl f ↦ rw (e, f) (Did-nothing st o.queue)
            | inr f ↦
                let answer = send d.payload o.front_attempts in
                rw (e, f)
                  (after_send-Drained rand now size answer.decision answer.retry_after_ms
                    (record o { window = record_drain_attempt o.window now }) idle)
          ]
        ]

    drain_peeked-Drained :
        (outcome : Status) (bytes : Bytes) (o : Watching)
        → IsIdle st o.queue
        → Drained o
            (drain_peeked (tallied st) config queue_config send rand enforce now outcome bytes o)
    unfolding drain_peeked clear_front_cooldown
    drain_peeked-Drained outcome bytes o idle = elim (Bool-cases (is_ok outcome)) [
      | inl e ↦ rw e (drain_decoded-Drained (to_u32 (length bytes)) (decode_envelope bytes) o idle)
      | inr e ↦ elim (Bool-cases (is_empty_code outcome.code)) [
        | inl f ↦ rw (e, f) (Did-nothing st o.queue)
        | inr f ↦ elim (Bool-cases (is_corrupt_front_code outcome.code)) [
          | inl g ↦ rw (e, f, g) (drop_corrupt_front-Drained outcome 0 o idle)
          | inr g ↦ rw (e, f, g) (Did-nothing st o.queue)
        ]
      ]
    ]

  -- Whatever the store, the transport and the clock answer, one drain has the store confirm exactly
  -- as many pops as it says that it removed records, and no enqueue; it makes all calls of the store
  -- under the lock and gives it back.
  pub drain_one-Drained :
      (send : Option SendCallback) (rand : Option (ℕ → ℕ)) (enforce : Bool) (clock : Option ℕ)
      (o : Watching)
      → IsIdle st o.queue
      → Drained o (drain_one (tallied st) config queue_config send rand enforce clock o)
  unfolding drain_one
  drain_one-Drained (some send) rand enforce (some now) o idle =
      let front = peek (tallied st) o.queue in
      let seen = peek-Did st o.queue idle in
      let t : Watching = record o { queue = front.1 } in
      let r =
        drain_peeked (tallied st) config queue_config send rand enforce now front.0.0 front.0.1 t in
      Did-after st (removed r.0) 0 o.queue front.1 r.1.queue seen (
        drain_peeked-Drained send rand enforce now front.0.0 front.0.1 t
          (Did-IsIdle st 0 0 o.queue front.1 seen idle))
  drain_one-Drained (some send) rand enforce none o idle = Did-nothing st o.queue
  drain_one-Drained none rand enforce (some now) o idle = Did-nothing st o.queue
  drain_one-Drained none rand enforce none o idle = Did-nothing st o.queue
