-- ===== src/Queue/Watched.antt =====
-- What the operations of the queue do to a store that is watched, whatever it answers.
use pqueue.Base.{
  ℕ, ◌≡◌, refl, sym, ap, inl, inr, ◌⊎◌, Bool, true, false, ◌&&◌, [], arith, Bool-cases, true≢false,
  ◌==◌,
}
use pqueue.Bytes.{Bytes}
use pqueue.Status.{Status, success, is_ok}
use pqueue.Queue.{
  QueueStore, Config, FullQueuePolicy, drop_oldest, is_corrupt_record_status, evict_front,
  peek_body, peek, pop_body, pop, drop_if_corrupt, drop_front_body, drop_front_if_corrupt,
  stats_result, operate,
}
use pqueue.Queue.Tally.{
  one_if, called, tallied, Watched, Did, HasLock, IsIdle, Did-nothing, Did-after, Did-HasLock,
  under_lock, operate-Tallied,
}

pub all_three : (a b c : Bool) → (a && (b && c)) ≡ true → (a ≡ true) × (b ≡ true) × (c ≡ true)
all_three true true true e = (refl, refl, refl)
all_three true true false e = absurd (true≢false (sym e))
all_three true false c e = absurd (true≢false (sym e))
all_three false b c e = absurd (true≢false (sym e))

abbrev pub one_if_ok : Status → ℕ
one_if_ok e = one_if (is_ok e)

module _ (st : QueueStore) where
  pub Did-exactly :
      (p n p' n' : ℕ) (q r : Watched st) → p ≡ p' → n ≡ n' → Did st p n q r → Did st p' n' q r
  Did-exactly p n p' n' q r e f d = record {
    held = d.held;
    locked = d.locked;
    outside = d.outside;
    popped = omega (arith, d.popped, e);
    pushed = omega (arith, d.pushed, f);
  }

  -- A call that is no pop and no enqueue.
  asked :
      (q : Watched st) (s : st.State)
      → HasLock st q
      → Did st 0 0 q (record q { store = (called q.store.0, s) })
  asked q s h = record {
    held = refl;
    locked = refl;
    outside = under_lock st q h;
    popped = omega arith;
    pushed = omega arith;
  }

  evict_front-Did :
      (q : Watched st)
      → HasLock st q
      → let r = evict_front (tallied st) q in Did st (one_if (is_ok r.0)) 0 q r.1
  unfolding evict_front
  evict_front-Did q h = elim (Bool-cases (is_ok (st.commit_pop q.index.head q.store.1).0)) [
    | inl e ↦ rw e (record {
      held = refl;
      locked = refl;
      outside = under_lock st q h;
      popped = refl;
      pushed = omega arith;
    })
    | inr e ↦
        rw (e, e)
          (record {
            held = refl;
            locked = refl;
            outside = under_lock st q h;
            popped = refl;
            pushed = omega arith;
          })
  ]

  module _ (policy : FullQueuePolicy) (bytes : Bytes) (q0 : Watched st) (h0 : HasLock st q0) where
    -- Since `q0`, one enqueue is confirmed if the outcome is a success and none otherwise; records
    -- are popped under the policy to drop the oldest only.
    abbrev pub Since : Status × Watched st → Type 0
    Since r = (k : ℕ) × Did st k (one_if (is_ok r.0)) q0 r.1 × ((k ≡ 0) ⊎ (policy ≡ drop_oldest))

  module _ (config : Config) (bytes : Bytes) where
    abbrev Enqueues : Status → ℕ → ℕ → Type 0
    Enqueues e k n = (n ≡ one_if (is_ok e)) × ((k ≡ 0) ⊎ (config.full_queue_policy ≡ drop_oldest))

  -- An operation whose body pops `pops` of its result, and enqueues nothing.
  operate-Did :
      {R : Type 0} (pops : R → ℕ) (refuse : Status → R) (body : Watched st → R × Watched st)
      → ((e : Status) → is_ok e ≡ false → pops (refuse e) ≡ 0)
      → ((t : Watched st) → HasLock st t → Did st (pops (body t).0) 0 t (body t).1)
      → (q : Watched st) → IsIdle st q
      → let r = operate (tallied st) refuse body q in Did st (pops r.0) 0 q r.1
  operate-Did {R} pops refuse body refused ran q idle =
      let r = operate (tallied st) refuse body q in
      let (p, n, (e, f), d) =
        operate-Tallied st (λ x p n. (p ≡ pops x) × (n ≡ 0)) refuse
          (λ e failed. (sym (refused e failed), refl)) body
          (λ t h. (pops (body t).0, 0, (refl, refl), ran t h)) q idle in
      Did-exactly p n (pops r.0) 0 q r.1 e f d

  pop_body-Did :
      (t : Watched st)
      → HasLock st t
      → let r = pop_body (tallied st) t in Did st (one_if_ok r.0) 0 t r.1
  unfolding pop_body
  pop_body-Did t h = elim (Bool-cases (t.index.count == 0)) [
    | inl e ↦ rw e (Did-nothing st t)
    | inr e ↦ rw e (evict_front-Did t h)
  ]

  -- Whatever the store answers, a pop from outside of the lock: it makes all its calls of the
  -- store under the lock and gives it back. The store has confirmed one pop if it is a success and
  -- none otherwise, and no enqueue.
  pub pop-Did :
      (q : Watched st) → IsIdle st q → let r = pop (tallied st) q in Did st (one_if_ok r.0) 0 q r.1
  unfolding pop
  pop-Did =
      operate-Did one_if_ok (λ e. e) (pop_body (tallied st)) (λ e failed. ap one_if failed)
        pop_body-Did

  peek_body-Did : (t : Watched st) → HasLock st t → Did st 0 0 t (peek_body (tallied st) t).1
  unfolding peek_body
  peek_body-Did t h = elim (Bool-cases (t.index.count == 0)) [
    | inl e ↦ rw e (Did-nothing st t)
    | inr e ↦ rw e (asked t _ h)
  ]

  pub peek-Did : (q : Watched st) → IsIdle st q → Did st 0 0 q (peek (tallied st) q).1
  unfolding peek
  peek-Did =
      operate-Did (λ x. 0) (λ e. (e, [])) (peek_body (tallied st)) (λ e failed. refl) peek_body-Did

  pub stats_result-Did :
      (q : Watched st) → IsIdle st q → Did st 0 0 q (stats_result (tallied st) q).1
  unfolding stats_result
  stats_result-Did =
      operate-Did (λ x. 0) (λ e. (e, 0, 0))
        (λ t. ((success, t.index.count, st.free_bytes t.store.1), t)) (λ e failed. refl)
        (λ t h. Did-nothing st t)

  drop_if_corrupt-Did :
      (outcome : Status) (t : Watched st)
      → HasLock st t
      → let r = drop_if_corrupt (tallied st) outcome t in Did st (one_if_ok r.0) 0 t r.1
  unfolding drop_if_corrupt
  drop_if_corrupt-Did outcome t h = elim (Bool-cases (is_ok outcome)) [
    | inl e ↦ rw e (Did-nothing st t)
    | inr e ↦ rw e (elim (Bool-cases (is_corrupt_record_status outcome.code)) [
      | inl f ↦ rw f (evict_front-Did t h)
      | inr f ↦
          rw f
            (Did-exactly 0 0 (one_if_ok outcome) 0 t t (sym (ap one_if e)) refl (Did-nothing st t))
    ])
  ]

  drop_front_body-Did :
      (t : Watched st)
      → HasLock st t
      → let r = drop_front_body (tallied st) t in Did st (one_if_ok r.0) 0 t r.1
  unfolding drop_front_body
  drop_front_body-Did t h = elim (Bool-cases (t.index.count == 0)) [
    | inl e ↦ rw e (Did-nothing st t)
    | inr e ↦
        let answer = st.read_record t.index.head t.store.1 in
        let u : Watched st = record t { store = (called t.store.0, answer.2) } in
        let seen = asked t answer.2 h in
        let r = drop_if_corrupt (tallied st) answer.0 u in
        rw e (
          Did-after st (one_if_ok r.0) 0 t u r.1 seen
            (drop_if_corrupt-Did answer.0 u (Did-HasLock st 0 0 t u seen h)))
  ]

  -- Whatever the store answers, the removal of a corrupt front record from outside of the lock: it
  -- makes all its calls of the store under the lock and gives it back. The store has confirmed one
  -- pop if it is a success and none otherwise, and no enqueue.
  pub drop_front_if_corrupt-Did :
      (q : Watched st)
      → IsIdle st q
      → let r = drop_front_if_corrupt (tallied st) q in Did st (one_if_ok r.0) 0 q r.1
  unfolding drop_front_if_corrupt
  drop_front_if_corrupt-Did =
      operate-Did one_if_ok (λ e. e) (drop_front_body (tallied st)) (λ e failed. ap one_if failed)
        drop_front_body-Did
