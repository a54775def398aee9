-- ===== src/Outbox/Batch.antt =====
-- What a batch of drains does to the store of the queue.
use pqueue.Base.{
  ℕ, zero, suc, ◌+◌, ◌≡◌, refl, inl, inr, true, Option, Bool-cases, arith, ◌==◌, if◌then◌else◌,
}
use pqueue.Queue.{QueueStore, Config}
use pqueue.Queue.Tally.{tallied, Did, IsIdle, Did-nothing, Did-then, Did-IsIdle}
use pqueue.Queue.Watched.{Did-exactly}
use pqueue.Outbox.Policy.{OutboxConfig}
use pqueue.Outbox.{
  SendCallback, DrainResult, drain_one, no_drain, add_drain, should_stop, after_round, drain_rounds,
  drain_up_to,
}
use pqueue.Outbox.Delivery.{removed, Watching, Drained, drain_one-Drained}

module _ (st : QueueStore) (config : OutboxConfig) (queue_config : Config) where
  removed-add_drain :
      (total current : DrainResult)
      → removed (add_drain (tallied st) config queue_config total current)
        ≡ removed total + removed current
  unfolding add_drain
  removed-add_drain total current = omega arith

  -- The pops that are confirmed beyond `before` are those that the counters say.
  abbrev Batched :
      ℕ → Watching st config queue_config → DrainResult × Watching st config queue_config → Type 0
  Batched before o r = (p : ℕ) × (removed r.0 ≡ before + p) × Did st p 0 o.queue r.1.queue

  module _ (sends : ℕ → Option SendCallback) (rands : ℕ → Option (ℕ → ℕ))
      (clocks : ℕ → Option ℕ) where
    drain_rounds-Batched :
        (n i : ℕ) (total : DrainResult) (o : Watching st config queue_config)
        → IsIdle st o.queue
        → Batched
            (removed total)
            o
            (drain_rounds (tallied st) config queue_config n sends rands clocks i total o)
    unfolding drain_rounds after_round
    drain_rounds-Batched zero i total o idle = (0, omega arith, Did-nothing st o.queue)
    drain_rounds-Batched (suc n) i total o idle =
        let one =
          drain_one (tallied st) config queue_config (sends i) (rands i) true (clocks i) o in
        let d =
          drain_one-Drained st config queue_config (sends i) (rands i) true (clocks i) o idle in
        let sum = add_drain (tallied st) config queue_config total one.0 in
        elim (Bool-cases (should_stop (tallied st) config queue_config one.0)) [
          | inl stop ↦ rw stop (removed one.0, removed-add_drain total one.0, d)
          | inr go ↦
              let rest =
                drain_rounds (tallied st) config queue_config n sends rands clocks (i + 1) sum
                  one.1 in
              let (p, counted, more) =
                drain_rounds-Batched n (i + 1) sum one.1
                  (Did-IsIdle st (removed one.0) 0 o.queue one.1.queue d idle) in
              rw go (
                removed one.0 + p,
                omega (arith, counted, removed-add_drain total one.0),
                Did-exactly st (removed one.0 + p) (0 + 0) (removed one.0 + p) 0 o.queue
                    rest.1.queue refl (omega arith)
                    (Did-then st (removed one.0) 0 p 0 o.queue one.1.queue rest.1.queue d more),
              )
        ]

    -- Whatever the store and the callbacks answer in each round, a batch of drains has the store
    -- confirm exactly as many pops as its counters say that it removed records, and no enqueue; it
    -- makes all calls of the store under the lock and gives it back.
    pub drain_up_to-Drained :
        (max_drain_attempts : ℕ) (o : Watching st config queue_config)
        → IsIdle st o.queue
        → Drained st config queue_config o
            (drain_up_to (tallied st) config queue_config max_drain_attempts sends rands clocks o)
    unfolding drain_up_to
    drain_up_to-Drained max_drain_attempts o idle =
        let n = if max_drain_attempts == 0 then 1 else max_drain_attempts in
        let r = drain_rounds (tallied st) config queue_config n sends rands clocks 0 no_drain o in
        let (p, counted, d) = drain_rounds-Batched n 0 no_drain o idle in
        Did-exactly st p 0 (removed r.0) 0 o.queue r.1.queue (omega (arith, counted)) refl d
