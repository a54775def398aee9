-- ===== src/Queue/Eviction.antt =====
-- The rounds of the eviction loop.
use pqueue.Base.{
  ℕ, zero, suc, ◌^◌, ◌≤◌, ◌<◌, ◌≡◌, refl, sym, ◌∙◌, inl, inr, true, ◌&&◌, ltb, arith, Bool-cases,
  true≢false,
}
use pqueue.Bytes.{Bytes}
use pqueue.Status.{Status, is_ok}
use pqueue.Queue.{
  QueueStore, FullQueuePolicy, is_drop_oldest, Queue, is_queue_full, evict_front, commit_record,
  retry_commit, commit_loop,
}
use pqueue.Queue.Watched.{all_three}

module _ (st : QueueStore) (policy : FullQueuePolicy) (sequence : ℕ) (bytes : Bytes) where
  evict_front-count :
      (q : Queue st) (n : ℕ)
      → q.index.count ≤ suc n
      → 0 < q.index.count
      → q.index.count < 2 ^ 32
      → is_ok (evict_front st q).0 ≡ true
      → ((evict_front st q).1.index.count ≤ n) × ((evict_front st q).1.index.count < 2 ^ 32)
  unfolding evict_front
  evict_front-count q n low some_left small ok =
      elim (Bool-cases (is_ok (st.commit_pop q.index.head q.store).0)) [
        | inl e ↦ rw e (omega arith)
        | inr e ↦ absurd (true≢false (sym (rw e at ok) ∙ e))
      ]

  again :
      (n : ℕ) (q : Queue st)
      → q.index.count ≤ suc n
      → 0 < q.index.count
      → q.index.count < 2 ^ 32
      → ((outcome : Status) (t : Queue st)
          → t.index.count ≤ n
          → t.index.count < 2 ^ 32
          → commit_loop st (suc n) policy sequence bytes (outcome, t)
            ≡ commit_loop st n policy sequence bytes (outcome, t))
      → retry_commit st
          (commit_loop st (suc n) policy sequence bytes)
          sequence
          bytes
          (evict_front st q)
        ≡ retry_commit st (commit_loop st n policy sequence bytes) sequence bytes (evict_front st q)
  unfolding retry_commit commit_record
  again n q low some_left small enough = elim (Bool-cases (is_ok (evict_front st q).0)) [
    | inl ok ↦
        let (fewer, still_small) = evict_front-count q n low some_left small ok in
        let first = commit_record st sequence bytes (evict_front st q).1 in
        rw ok (enough first.0 first.1 fewer still_small)
    | inr failed ↦ rw failed refl
  ]

  -- Once the loop has as many rounds as the index counts records, one more changes nothing: it never
  -- ends for want of rounds.
  pub commit_loop-enough :
      (n : ℕ) (outcome : Status) (q : Queue st)
      → q.index.count ≤ n
      → q.index.count < 2 ^ 32
      → commit_loop st (suc n) policy sequence bytes (outcome, q)
        ≡ commit_loop st n policy sequence bytes (outcome, q)
  unfolding commit_loop
  commit_loop-enough zero outcome q low small =
      elim (Bool-cases
        (is_queue_full outcome.code && (is_drop_oldest policy && ltb 0 q.index.count))) [
          | inl go ↦ absurd (
              ground (
                arith,
                low,
                (all_three (is_queue_full outcome.code) (is_drop_oldest policy)
                    (ltb 0 q.index.count) go).2,
              ))
          | inr stop ↦ rw stop refl
        ]
  commit_loop-enough (suc n) outcome q low small =
      elim (Bool-cases
        (is_queue_full outcome.code && (is_drop_oldest policy && ltb 0 q.index.count))) [
          | inl go ↦ rw go (
              again n q low
                (ground (
                  arith,
                  (all_three (is_queue_full outcome.code) (is_drop_oldest policy)
                      (ltb 0 q.index.count) go).2,
                ))
                small (commit_loop-enough n))
          | inr stop ↦ rw stop refl
        ]
