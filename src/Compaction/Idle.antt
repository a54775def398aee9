-- ===== src/Compaction/Idle.antt =====
-- What the counters of an idle compaction say, compactIdle of
-- src/pqueue/append_log_store/compaction.cpp.
use pqueue.Base.{
  ℕ, zero, suc, ◌+◌, ◌≤◌, ◌<◌, ◌≡◌, refl, ◌⊎◌, inl, inr, ◌↔◌, Bool, true, false, ◌&&◌, arith,
  Bool-cases, ltb, ◌==◌,
}
use pqueue.Status.{is_ok, is_no_op}
use pqueue.FileSystem.{FileSystem}
use pqueue.Store.{Store}
use pqueue.Append.{StoreConfig}
use pqueue.Compaction.Run.{
  IdleResult, idle_start, Compacted, compact_one_segment, after_step, idle_loop, compact_idle,
}

-- Every step compacted, or the last one failed or was a no-op.
abbrev Counts : ℕ → IdleResult → IdleResult → Type 0
Counts n before r =
    ((is_ok r.status ≡ true)
      × (r.no_ops ≡ 0)
      × (r.compactions ≡ before.compactions + n)
      × (r.steps_run ≡ before.steps_run + n))
    ⊎ (((is_ok r.status && (r.no_ops == 0)) ≡ false)
        × (r.compactions < before.compactions + n)
        × (r.steps_run + before.compactions ≡ before.steps_run + r.compactions + 1))

abbrev step_counted : ℕ → ℕ → IdleResult → IdleResult
step_counted ins outs result = record result {
  steps_run = suc result.steps_run;
  compactions = suc result.compactions;
  input_segments = result.input_segments + ins;
  output_segments = result.output_segments + outs;
}

-- A step that compacted, in front of the others.
later :
    (n ins outs : ℕ) (result r : IdleResult)
    → Counts n (step_counted ins outs result) r
    → Counts (suc n) result r
later n ins outs result r (inl (ok, none_yet, all, steps)) =
    inl (ok, none_yet, omega (arith, all), omega (arith, steps))
later n ins outs result r (inr (ended, fewer, steps)) =
    inr (ended, omega (arith, fewer), omega (arith, steps))

module _ (fs : FileSystem) (exceeds : ℕ × ℕ → ℕ × ℕ → Bool) (config : StoreConfig) where
  after_step-Counts :
      (n : ℕ) (result : IdleResult) (c : Compacted fs exceeds config)
      → result.no_ops ≡ 0
      → ((next : IdleResult) (m : Store) (s : fs.State)
          → is_ok next.status ≡ true
          → next.no_ops ≡ 0
          → Counts n next (idle_loop fs exceeds config n next m s).0)
      → is_ok result.status ≡ true
      → Counts
          (suc n)
          result
          (after_step fs exceeds config (idle_loop fs exceeds config n) result c).0
  unfolding after_step
  after_step-Counts n result (st, ins, outs, m, s) fresh next ok = elim (Bool-cases (is_ok st)) [
    | inr e ↦ rw (e, e) (inr (refl, omega arith, omega arith))
    | inl e ↦ rw e (elim (Bool-cases (is_no_op st)) [
      | inl idle ↦
          let counted : (suc result.no_ops == 0) ≡ false = ground arith in
          rw (idle, ok, counted) (inr (refl, omega arith, omega arith))
      | inr busy ↦ rw busy (
          later n ins outs result
            (idle_loop fs exceeds config n (step_counted ins outs result) m s).0
            (next (step_counted ins outs result) m s ok fresh))
    ])
  ]

  idle_loop-Counts :
      (n : ℕ) (result : IdleResult) (m : Store) (s : fs.State)
      → is_ok result.status ≡ true
      → result.no_ops ≡ 0
      → Counts n result (idle_loop fs exceeds config n result m s).0
  unfolding idle_loop
  idle_loop-Counts zero result m s ok fresh = inl (ok, fresh, omega arith, omega arith)
  idle_loop-Counts (suc n) result m s ok fresh =
      after_step-Counts n result (compact_one_segment fs exceeds config true m s) fresh
        (idle_loop-Counts n) ok

  -- An idle compaction reports that more work is likely exactly if it was given a step and every
  -- step compacted; each step but at most one compacted.
  pub compact_idle-more_work :
      (max_steps : ℕ) (m : Store) (s : fs.State)
      → let r = (compact_idle fs exceeds config max_steps m s).0 in
        ((r.more_work_likely ≡ true) ↔ ((0 < max_steps) × (r.loop.compactions ≡ max_steps)))
        × (r.loop.compactions ≤ r.loop.steps_run)
        × (r.loop.steps_run ≤ r.loop.compactions + 1)
        × (r.loop.steps_run ≤ max_steps)
  unfolding compact_idle
  compact_idle-more_work max_steps m s =
      told (idle_loop fs exceeds config max_steps idle_start m s).0
        (idle_loop-Counts max_steps idle_start m s refl refl)
    where
      told :
          (r : IdleResult)
          → Counts max_steps idle_start r
          → (((is_ok r.status && ((r.no_ops == 0) && ltb 0 r.compactions)) ≡ true)
              ↔ ((0 < max_steps) × (r.compactions ≡ max_steps)))
            × (r.compactions ≤ r.steps_run)
            × (r.steps_run ≤ r.compactions + 1)
            × (r.steps_run ≤ max_steps)
      told r c = ground (arith, c)
