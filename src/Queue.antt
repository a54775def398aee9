-- ===== src/Queue.antt =====
-- The queue on top of a store, src/pqueue/queue.cpp: each operation takes the lock, loads the
-- index from the store, acts and releases the lock. The store (`Store` of
-- src/pqueue/store_types.h, with the two calls that are reserved to AppendLogStore) is a parameter.
-- Events that are emitted and the waits between attempts at the lock are left out. The lock's
-- contents are fixed when it is first taken, and belong to the store's state here.
pub mod Tally
pub mod Watched
pub mod Eviction
use pqueue.Base.{
  ℕ, zero, suc, ◌+◌, ◌-◌, ◌^◌, ◌≡◌, Bool, true, false, not, ◌&&◌, List, [], ◌∷◌, Option, none, some,
  ltb, ◌==◌, if◌then◌else◌, length,
}
use pqueue.Bytes.{Bytes}
use pqueue.LogFormat.{to_u32}
use pqueue.Status.{Status, StatusCode, success, failure, is_ok}

pub record QueueIndex : Type 0 where
  pub head : ℕ
  pub tail : ℕ
  pub count : ℕ

pub data FullQueuePolicy : Type 0 where
  reject_newest drop_oldest : FullQueuePolicy

abbrev pub is_drop_oldest : FullQueuePolicy → Bool
is_drop_oldest reject_newest = false
is_drop_oldest drop_oldest = true

pub record Config : Type 0 where
  pub record_size_bytes : ℕ
  pub full_queue_policy : FullQueuePolicy

-- Arguments of the source that are returned through references are part of the result.
pub record QueueStore : Type 1 where
  pub State : Type 0
  pub read_index : State → Status × QueueIndex × State
  pub commit_enqueue : ℕ → Bytes → State → Status × State
  pub commit_pop : ℕ → State → Status × State
  pub rewrite_record : ℕ → Bytes → State → Status × State
  pub read_record : ℕ → State → Status × Bytes × State
  pub read_record_size : ℕ → State → Status × ℕ × State
  pub try_acquire_lock_file : State → Status × State
  pub release_lock_file : State → Status × State
  pub recover_stale_lock_file : State → Status × State
  pub free_bytes : State → ℕ
  pub format : State → Status × State
  pub append_would_hit_admission_pressure : ℕ → State → Bool
  pub reclaim_dead_front_segment : State → Status × State

abbrev pub lock_attempts : ℕ
lock_attempts = 10

abbrev pub is_lock_timeout : StatusCode → Bool
is_lock_timeout StatusCode.lock_timeout = true
is_lock_timeout _ = false

abbrev pub is_queue_full : StatusCode → Bool
is_queue_full StatusCode.queue_full = true
is_queue_full _ = false

unfoldable pub is_corrupt_record_status : StatusCode → Bool
is_corrupt_record_status StatusCode.invalid_record = true
is_corrupt_record_status StatusCode.crc_mismatch = true
is_corrupt_record_status _ = false

module _ (st : QueueStore) where
  pub record Queue : Type 0 where
    pub lock_held : Bool
    pub index : QueueIndex
    pub store : st.State

  -- What an attempt at the lock means: held, failed, or to be tried again.
  unfoldable pub after_attempt :
      Status × st.State → (Status → Queue → Status × Queue) → Queue → Status × Queue
  after_attempt (attempt, s) retry q =
      if is_ok attempt
      then (success, record q { lock_held = true; store = s })
      else if is_lock_timeout attempt.code
      then retry attempt (record q { store = s })
      else (attempt, record q { store = s })

  -- The attempts that are left, and the status of the last one.
  unfoldable pub acquire_loop : ℕ → Status → Queue → Status × Queue
  unfolding after_attempt
  acquire_loop zero last q =
      (record { code = StatusCode.lock_timeout; backend_code = last.backend_code }, q)
  acquire_loop (suc n) last q = after_attempt (st.try_acquire_lock_file q.store) (acquire_loop n) q

  unfoldable pub acquire_lock : Queue → Status × Queue
  unfolding acquire_loop
  acquire_lock q =
      if q.lock_held
      then (success, q)
      else acquire_loop lock_attempts (failure StatusCode.lock_timeout) q

  unfoldable pub release_lock : Queue → Queue
  release_lock q =
      if q.lock_held
      then record q { lock_held = false; store = (st.release_lock_file q.store).1 }
      else q

  unfoldable pub recover_stale_lock : Queue → Status × Queue
  recover_stale_lock q =
      if q.lock_held
      then (failure StatusCode.invalid_argument, q)
      else let (outcome, s) = st.recover_stale_lock_file q.store in
        (outcome, record q { store = s })

  -- `ScopedLock`: the body runs under the lock, which is released behind it.
  unfoldable pub scoped {ℓ} :
      {R : Type ℓ} → (Status → R) → (Queue → R × Queue) → Status × Queue → R × Queue
  unfolding release_lock
  scoped refuse body (locked, q) =
      if is_ok locked then (let (r, t) = body q in (r, release_lock t)) else (refuse locked, q)

  unfoldable pub load_latest_index : Queue → Status × Queue
  load_latest_index q =
      let (loaded, index, s) = st.read_index q.store in
      if is_ok loaded
      then (success, record q { index = index; store = s })
      else (loaded, record q { store = s })

  unfoldable pub loaded {ℓ} :
      {R : Type ℓ} → (Status → R) → (Queue → R × Queue) → Status × Queue → R × Queue
  loaded refuse body (outcome, q) = if is_ok outcome then body q else (refuse outcome, q)

  -- The frame of an operation: lock, index, body.
  unfoldable pub operate {ℓ} : {R : Type ℓ} → (Status → R) → (Queue → R × Queue) → Queue → R × Queue
  unfolding scoped loaded load_latest_index acquire_lock
  operate refuse body q =
      scoped refuse (λ t. loaded refuse body (load_latest_index t)) (acquire_lock q)

  -- `index_.head += 1; index_.count -= 1;`
  abbrev popped_index : QueueIndex → QueueIndex
  popped_index i = record i { head = to_u32 (i.head + 1); count = to_u32 (i.count + (2 ^ 32 - 1)) }

  abbrev pushed_index : QueueIndex → QueueIndex
  pushed_index i = record i { tail = to_u32 (i.tail + 1); count = to_u32 (i.count + 1) }

  -- `commitPop(index_.head)` with the index that follows a success: `evictFront`, and the end of
  -- `pop` and of `dropFrontIfCorrupt`.
  unfoldable pub evict_front : Queue → Status × Queue
  evict_front q =
      let (popped, s) = st.commit_pop q.index.head q.store in
      if is_ok popped
      then (success, record q { index = popped_index q.index; store = s })
      else (popped, record q { store = s })

  unfoldable pub commit_record : ℕ → Bytes → Queue → Status × Queue
  commit_record sequence bytes q =
      let (outcome, s) = st.commit_enqueue sequence bytes q.store in
      (outcome, record q { store = s })

  -- What follows an eviction. One that failed ends the operation with its status.
  unfoldable pub retry_commit :
      (Status × Queue → Status × Queue) → ℕ → Bytes → Status × Queue → Status × Queue
  unfolding commit_record
  retry_commit next sequence bytes (evicted, q) =
      if is_ok evicted then next (commit_record sequence bytes q) else (evicted, q)

  -- The loop that evicts the oldest record and commits again; `n` rounds are left. Each round takes
  -- one from `index_.count`, so the count before the loop is enough.
  unfoldable pub commit_loop : ℕ → FullQueuePolicy → ℕ → Bytes → Status × Queue → Status × Queue
  unfolding evict_front retry_commit
  commit_loop zero policy sequence bytes (outcome, q) = (outcome, q)
  commit_loop (suc n) policy sequence bytes (outcome, q) =
      if is_queue_full outcome.code && (is_drop_oldest policy && ltb 0 q.index.count)
      then retry_commit (commit_loop n policy sequence bytes) sequence bytes (evict_front q)
      else (outcome, q)

  unfoldable pub finish_enqueue : Status × Queue → Status × Queue
  finish_enqueue (outcome, q) =
      if is_ok outcome then (success, record q { index = pushed_index q.index }) else (outcome, q)

  -- The reclaim of a dead front segment under pressure.
  unfoldable pub relieve : FullQueuePolicy → Bytes → Queue → Status × Queue
  relieve policy bytes q =
      if is_drop_oldest policy
        && (ltb 0 q.index.count
            && st.append_would_hit_admission_pressure (to_u32 (length bytes)) q.store)
      then (let (reclaim, s) = st.reclaim_dead_front_segment q.store in
          (reclaim, record q { store = s }))
      else (success, q)

  unfoldable pub commit_relieved : FullQueuePolicy → Bytes → Status × Queue → Status × Queue
  unfolding commit_loop finish_enqueue commit_record
  commit_relieved policy bytes (reclaim, q) =
      if is_ok reclaim
      then finish_enqueue
          (commit_loop q.index.count policy q.index.tail bytes (commit_record q.index.tail bytes q))
      else (reclaim, q)

  unfoldable pub enqueue_body : Config → Bytes → Queue → Status × Queue
  unfolding relieve commit_relieved
  enqueue_body config bytes q =
      if ltb config.record_size_bytes (length bytes)
      then (failure StatusCode.record_too_large, q)
      else commit_relieved config.full_queue_policy bytes (relieve config.full_queue_policy bytes q)

  -- Of a span that is not null.
  unfoldable pub enqueue : Config → Bytes → Queue → Status × Queue
  unfolding operate enqueue_body
  enqueue config bytes q = operate (λ e. e) (enqueue_body config bytes) q

  abbrev with_bytes : Status → Status × Bytes
  with_bytes e = (e, [])

  unfoldable pub peek_body : Queue → (Status × Bytes) × Queue
  peek_body q =
      if q.index.count == 0
      then (with_bytes (failure StatusCode.queue_empty), q)
      else let (outcome, bytes, s) = st.read_record q.index.head q.store in
        ((outcome, bytes), record q { store = s })

  unfoldable pub peek : Queue → (Status × Bytes) × Queue
  unfolding operate peek_body
  peek q = operate with_bytes peek_body q

  unfoldable pub peek_size_body : Queue → (Status × ℕ) × Queue
  peek_size_body q =
      if q.index.count == 0
      then ((failure StatusCode.queue_empty, 0), q)
      else let (outcome, size, s) = st.read_record_size q.index.head q.store in
        ((outcome, size), record q { store = s })

  unfoldable pub peek_size : Queue → (Status × ℕ) × Queue
  unfolding operate peek_size_body
  peek_size q = operate (λ e. (e, 0)) peek_size_body q

  unfoldable pub pop_body : Queue → Status × Queue
  unfolding evict_front
  pop_body q = if q.index.count == 0 then (failure StatusCode.queue_empty, q) else evict_front q

  unfoldable pub pop : Queue → Status × Queue
  unfolding operate pop_body
  pop q = operate (λ e. e) pop_body q

  unfoldable pub rewrite_front_body : Config → Bytes → Queue → Status × Queue
  rewrite_front_body config bytes q =
      if q.index.count == 0
      then (failure StatusCode.queue_empty, q)
      else if ltb config.record_size_bytes (length bytes)
      then (failure StatusCode.record_too_large, q)
      else let (outcome, s) = st.rewrite_record q.index.head bytes q.store in
        (outcome, record q { store = s })

  unfoldable pub rewrite_front : Config → Bytes → Queue → Status × Queue
  unfolding operate rewrite_front_body
  rewrite_front config bytes q = operate (λ e. e) (rewrite_front_body config bytes) q

  -- What a read of the front means: a record that can be read, or fails otherwise, stays.
  unfoldable pub drop_if_corrupt : Status → Queue → Status × Queue
  unfolding evict_front is_corrupt_record_status
  drop_if_corrupt outcome q =
      if is_ok outcome
      then (failure StatusCode.invalid_argument, q)
      else if is_corrupt_record_status outcome.code
      then evict_front q
      else (outcome, q)

  unfoldable pub drop_front_body : Queue → Status × Queue
  unfolding drop_if_corrupt
  drop_front_body q =
      if q.index.count == 0
      then (failure StatusCode.queue_empty, q)
      else let (outcome, ignored, s) = st.read_record q.index.head q.store in
        drop_if_corrupt outcome (record q { store = s })

  unfoldable pub drop_front_if_corrupt : Queue → Status × Queue
  unfolding operate drop_front_body
  drop_front_if_corrupt q = operate (λ e. e) drop_front_body q

  unfoldable pub format_body : Queue → Status × Queue
  format_body q =
      let (outcome, s) = st.format q.store in
      if is_ok outcome
      then (success, record q { index = record { head = 0; tail = 0; count = 0 }; store = s })
      else (outcome, record q { store = s })

  -- `format` takes the lock and does not load the index.
  unfoldable pub format : Queue → Status × Queue
  unfolding scoped acquire_lock format_body
  format q = scoped (λ e. e) format_body (acquire_lock q)

  unfoldable pub stats_result : Queue → (Status × ℕ × ℕ) × Queue
  unfolding operate
  stats_result q =
      operate (λ e. (e, 0, 0)) (λ t. ((success, t.index.count, st.free_bytes t.store), t)) q
