-- ===== src/Examples/Cells.antt =====
-- A store with room for two records, on which the queue and the outbox run.
use pqueue.Base.{ℕ, ◌+◌, false, List, [], ◌∷◌, ◌==◌, if◌then◌else◌, length}
use pqueue.Bytes.{Bytes}
use pqueue.LogFormat.{to_u32}
use pqueue.Status.{Status, StatusCode, success, failure}
use pqueue.Queue.{QueueStore}

-- The number of the front, and the records behind it.
pub data Cells : Type 0 where
  none_held : ℕ → Cells
  one_held : ℕ → Bytes → Cells
  two_held : ℕ → Bytes → Bytes → Cells

abbrev pub cells : Cells → List Bytes
cells (none_held h) = []
cells (one_held h x) = x ∷ []
cells (two_held h x y) = x ∷ y ∷ []

abbrev pub front : Cells → ℕ
front (none_held h) = h
front (one_held h x) = h
front (two_held h x y) = h

abbrev pub pushed : Bytes → Cells → Status × Cells
pushed b (none_held h) = (success, one_held h b)
pushed b (one_held h x) = (success, two_held h x b)
pushed b (two_held h x y) = (failure StatusCode.queue_full, two_held h x y)

abbrev pub popped : ℕ → Cells → Status × Cells
popped n (none_held h) = (failure StatusCode.invalid_index, none_held h)
popped n (one_held h x) =
    if n == h
    then (success, none_held (to_u32 (h + 1)))
    else (failure StatusCode.invalid_index, one_held h x)
popped n (two_held h x y) =
    if n == h
    then (success, one_held (to_u32 (h + 1)) y)
    else (failure StatusCode.invalid_index, two_held h x y)

abbrev pub read : ℕ → Cells → Status × Bytes × Cells
read n (none_held h) = (failure StatusCode.invalid_index, [], none_held h)
read n (one_held h x) = (success, x, one_held h x)
read n (two_held h x y) =
    if n == h then (success, x, two_held h x y) else (success, y, two_held h x y)

abbrev pub cell_store : QueueStore
cell_store = record {
  State = Cells;
  read_index = λ s. (
    success,
    record { head = front s; tail = to_u32 (front s + length (cells s)); count = length (cells s) },
    s,
  );
  commit_enqueue = λ sequence b s. pushed b s;
  commit_pop = popped;
  rewrite_record = λ n b s. (failure StatusCode.write_failed, s);
  read_record = read;
  read_record_size = λ n s. ((read n s).0, length (read n s).1, s);
  try_acquire_lock_file = λ s. (success, s);
  release_lock_file = λ s. (success, s);
  recover_stale_lock_file = λ s. (success, s);
  free_bytes = λ s. 0;
  format = λ s. (success, none_held 0);
  append_would_hit_admission_pressure = λ n s. false;
  reclaim_dead_front_segment = λ s. (success, s);
}
