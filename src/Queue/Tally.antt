-- ===== src/Queue/Tally.antt =====
-- A store that keeps a tally of what the queue does to it: whether the lock is taken, the calls
-- that were made without it, and the pops and enqueues that the store confirmed. Any store can be
-- watched so, since the tally changes no answer.
use pqueue.Base.{
  ℕ, suc, ◌+◌, ◌≡◌, refl, sym, ap, ◌∙◌, inl, inr, ◌⊎◌, Bool, true, false, arith, Bool-cases, subst,
  if◌then◌else◌, zero,
}
use pqueue.Status.{Status, StatusCode, success, failure, is_ok}
use pqueue.Queue.{
  QueueStore, QueueIndex, Queue, is_lock_timeout, lock_attempts, after_attempt, acquire_loop,
  acquire_lock, release_lock, scoped, load_latest_index, loaded, operate,
}

pub record Tally : Type 0 where
  pub locked : Bool
  pub outside : ℕ
  pub popped : ℕ
  pub pushed : ℕ

abbrev pub one_if : Bool → ℕ
one_if true = 1
one_if false = 0

-- A call of the store.
abbrev pub called : Tally → Tally
called t = record t { outside = t.outside + one_if (if t.locked then false else true) }

abbrev pub tallied : QueueStore → QueueStore
tallied st = record {
  State = Tally × st.State;
  read_index = λ x. let r = st.read_index x.1 in (r.0, r.1, (called x.0, r.2));
  commit_enqueue = λ seq bytes x.
      let r = st.commit_enqueue seq bytes x.1 in
      (r.0, (record (called x.0) { pushed = x.0.pushed + one_if (is_ok r.0) }, r.1));
  commit_pop = λ seq x.
      let r = st.commit_pop seq x.1 in
      (r.0, (record (called x.0) { popped = x.0.popped + one_if (is_ok r.0) }, r.1));
  rewrite_record =
      λ seq bytes x. let r = st.rewrite_record seq bytes x.1 in (r.0, (called x.0, r.1));
  read_record = λ seq x. let r = st.read_record seq x.1 in (r.0, r.1, (called x.0, r.2));
  read_record_size = λ seq x. let r = st.read_record_size seq x.1 in (r.0, r.1, (called x.0, r.2));
  try_acquire_lock_file = λ x.
      let r = st.try_acquire_lock_file x.1 in
      (r.0, (record x.0 { locked = if is_ok r.0 then true else x.0.locked }, r.1));
  release_lock_file =
      λ x. let r = st.release_lock_file x.1 in (r.0, (record x.0 { locked = false }, r.1));
  recover_stale_lock_file = λ x. let r = st.recover_stale_lock_file x.1 in (r.0, (x.0, r.1));
  free_bytes = λ x. st.free_bytes x.1;
  format = λ x. let r = st.format x.1 in (r.0, (called x.0, r.1));
  append_would_hit_admission_pressure = λ size x. st.append_would_hit_admission_pressure size x.1;
  reclaim_dead_front_segment =
      λ x. let r = st.reclaim_dead_front_segment x.1 in (r.0, (called x.0, r.1));
}

module _ (st : QueueStore) where
  abbrev pub Watched : Type 0
  Watched = Queue (tallied st)

  -- Between `q` and `r` the store confirmed `p` pops and `n` enqueues, no call was made without the
  -- lock, and the lock is as it was.
  pub record Did (p n : ℕ) (q r : Watched) : Type 0 where
    pub held : r.lock_held ≡ q.lock_held
    pub locked : r.store.0.locked ≡ q.store.0.locked
    pub outside : r.store.0.outside ≡ q.store.0.outside
    pub popped : r.store.0.popped ≡ q.store.0.popped + p
    pub pushed : r.store.0.pushed ≡ q.store.0.pushed + n

  pub record HasLock (q : Watched) : Type 0 where
    pub held : q.lock_held ≡ true
    pub locked : q.store.0.locked ≡ true

  pub record IsIdle (q : Watched) : Type 0 where
    pub held : q.lock_held ≡ false
    pub locked : q.store.0.locked ≡ false

  pub Did-nothing : (q : Watched) → Did 0 0 q q
  Did-nothing q = record {
    held = refl;
    locked = refl;
    outside = refl;
    popped = omega arith;
    pushed = omega arith;
  }

  pub Did-then :
      (p n k l : ℕ) (q r t : Watched) → Did p n q r → Did k l r t → Did (p + k) (n + l) q t
  Did-then p n k l q r t d e = record {
    held = e.held ∙ d.held;
    locked = e.locked ∙ d.locked;
    outside = e.outside ∙ d.outside;
    popped = omega (arith, d.popped, e.popped);
    pushed = omega (arith, d.pushed, e.pushed);
  }

  pub Did-after : (p n : ℕ) (q r t : Watched) → Did 0 0 q r → Did p n r t → Did p n q t
  Did-after p n q r t d e = record {
    held = e.held ∙ d.held;
    locked = e.locked ∙ d.locked;
    outside = e.outside ∙ d.outside;
    popped = omega (arith, d.popped, e.popped);
    pushed = omega (arith, d.pushed, e.pushed);
  }

  pub Did-HasLock : (p n : ℕ) (q r : Watched) → Did p n q r → HasLock q → HasLock r
  Did-HasLock p n q r d h = record { held = d.held ∙ h.held; locked = d.locked ∙ h.locked }

  pub Did-IsIdle : (p n : ℕ) (q r : Watched) → Did p n q r → IsIdle q → IsIdle r
  Did-IsIdle p n q r d h = record { held = d.held ∙ h.held; locked = d.locked ∙ h.locked }

  -- The lock was taken, and nothing else done.
  record Took (q r : Watched) : Type 0 where
    has : HasLock r
    outside : r.store.0.outside ≡ q.store.0.outside
    popped : r.store.0.popped ≡ q.store.0.popped
    pushed : r.store.0.pushed ≡ q.store.0.pushed

  abbrev Acquired : Watched → Status × Watched → Type 0
  Acquired q r = ((is_ok r.0 ≡ true) × Took q r.1) ⊎ ((is_ok r.0 ≡ false) × Did 0 0 q r.1)

  Did-Acquired : (q t : Watched) (r : Status × Watched) → Did 0 0 q t → Acquired t r → Acquired q r
  Did-Acquired q t r d (inl (ok, took)) = inl (
    ok,
    record {
      has = took.has;
      outside = took.outside ∙ d.outside;
      popped = omega (arith, took.popped, d.popped);
      pushed = omega (arith, took.pushed, d.pushed);
    },
  )
  Did-Acquired q t r d (inr (failed, e)) = inr (failed, Did-after 0 0 q t r.1 d e)

  acquire_loop-Acquired :
      (n : ℕ) (last : Status) (q : Watched) → Acquired q (acquire_loop (tallied st) n last q)
  unfolding acquire_loop after_attempt
  acquire_loop-Acquired zero last q = inr (refl, Did-nothing q)
  acquire_loop-Acquired (suc n) last q =
      let attempt = (st.try_acquire_lock_file q.store.1).0 in
      elim (Bool-cases (is_ok attempt)) [
        | inl ok ↦ rw ok (
            inl (
              refl,
              record {
                has = record { held = refl; locked = refl };
                outside = refl;
                popped = refl;
                pushed = refl;
              },
            ))
        | inr failed ↦ rw failed (elim (Bool-cases (is_lock_timeout attempt.code)) [
          | inl again ↦
              let t : Watched = record q {
                store = (q.store.0, (st.try_acquire_lock_file q.store.1).1);
              } in
              rw again (
                Did-Acquired q t (acquire_loop (tallied st) n attempt t) (unmoved q _)
                  (acquire_loop-Acquired n attempt t))
          | inr stop ↦ rw stop (inr (failed, unmoved q _))
        ])
      ]
    where
      unmoved : (q : Watched) (s : st.State) → Did 0 0 q (record q { store = (q.store.0, s) })
      unmoved q s = record {
        held = refl;
        locked = refl;
        outside = refl;
        popped = omega arith;
        pushed = omega arith;
      }

  acquire_lock-Acquired : (q : Watched) → IsIdle q → Acquired q (acquire_lock (tallied st) q)
  unfolding acquire_lock
  acquire_lock-Acquired q idle =
      let last = failure StatusCode.lock_timeout in
      let tries = acquire_loop (tallied st) lock_attempts last q in
      let free : acquire_lock (tallied st) q ≡ tries =
        ap (λ b. if b then (success, q) else tries) idle.held in
      subst (Acquired q) (sym free) (acquire_loop-Acquired lock_attempts last q)

  released :
      (p n : ℕ) (q t r : Watched)
      → IsIdle q
      → Took q t
      → Did p n t r
      → Did p n q (release_lock (tallied st) r)
  unfolding release_lock
  released p n q t r idle took d =
      let held = d.held ∙ took.has.held in
      rw held (record {
        held = sym idle.held;
        locked = sym idle.locked;
        outside = d.outside ∙ took.outside;
        popped = omega (arith, d.popped, took.popped);
        pushed = omega (arith, d.pushed, took.pushed);
      })

  -- A call of the store under the lock.
  pub under_lock : (q : Watched) → HasLock q → (called q.store.0).outside ≡ q.store.0.outside
  under_lock q h = rw h.locked (omega arith)

  module _ {ℓ κ} {R : Type ℓ} (P : R → ℕ → ℕ → Type κ) (refuse : Status → R)
      (refused : (e : Status) → is_ok e ≡ false → P (refuse e) 0 0) where
    abbrev pub Tallied : Watched → R × Watched → Type κ
    Tallied q r = (p : ℕ) × (n : ℕ) × P r.0 p n × Did p n q r.1

    pub scoped-Tallied :
        (body : Watched → R × Watched)
        → ((t : Watched) → HasLock t → Tallied t (body t))
        → (q : Watched) → IsIdle q
        → Tallied q (scoped (tallied st) refuse body (acquire_lock (tallied st) q))
    unfolding scoped
    scoped-Tallied body ran q idle =
        let a = acquire_lock (tallied st) q in
        elim (acquire_lock-Acquired q idle) [
          | inl (ok, took) ↦
              let (p, n, holds, d) = ran a.1 took.has in
              rw ok (p, n, holds, released p n q a.1 (body a.1).1 idle took d)
          | inr (failed, d) ↦ rw failed (0, 0, refused a.0 failed, d)
        ]

    looked :
        (q : Watched) (i : QueueIndex) (s : st.State)
        → HasLock q
        → Did 0 0 q (record q { index = i; store = (called q.store.0, s) })
    looked q i s h = record {
      held = refl;
      locked = refl;
      outside = under_lock q h;
      popped = omega arith;
      pushed = omega arith;
    }

    loaded-Tallied :
        (body : Watched → R × Watched)
        → ((t : Watched) → HasLock t → Tallied t (body t))
        → (q : Watched) → HasLock q
        → Tallied q (loaded (tallied st) refuse body (load_latest_index (tallied st) q))
    unfolding loaded load_latest_index
    loaded-Tallied body ran q h =
        let answer = st.read_index q.store.1 in
        elim (Bool-cases (is_ok answer.0)) [
          | inl ok ↦
              let t : Watched = record q {
                index = answer.1;
                store = (called q.store.0, answer.2);
              } in
              let seen = looked q answer.1 answer.2 h in
              let (p, n, holds, d) = ran t (Did-HasLock 0 0 q t seen h) in
              rw ok (p, n, holds, Did-after p n q t (body t).1 seen d)
          | inr failed ↦
              rw (failed, failed) (0, 0, refused answer.0 failed, looked q q.index answer.2 h)
        ]

    -- What holds of the body under the lock holds of the operation.
    pub operate-Tallied :
        (body : Watched → R × Watched)
        → ((t : Watched) → HasLock t → Tallied t (body t))
        → (q : Watched) → IsIdle q
        → Tallied q (operate (tallied st) refuse body q)
    unfolding operate
    operate-Tallied body ran =
        scoped-Tallied (λ t. loaded (tallied st) refuse body (load_latest_index (tallied st) t))
          (loaded-Tallied body ran)
