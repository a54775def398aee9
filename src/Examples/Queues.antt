-- ===== src/Examples/Queues.antt =====
-- The queue and the outbox on the store with room for two records.
use pqueue.Base.{
  ◌+◌, ◌-◌, ◌*◌, ◌≡◌, ◌≤◌, ◌^◌, ◌<◌, refl, true, false, [], ◌∷◌, arith, none, some, min,
}
use pqueue.Status.{StatusCode, failure}
use pqueue.Queue.{Config, drop_oldest, Queue, enqueue, pop, commit_loop, drop_front_if_corrupt}
use pqueue.Queue.Tally.{Tally, tallied, Watched, Did, IsIdle}
use pqueue.Queue.Watched.{one_if_ok, pop-Did, drop_front_if_corrupt-Did}
use pqueue.Queue.Eviction.{commit_loop-enough}
use pqueue.Outbox.Policy.{
  OutboxConfig, compute_retry_delay, DrainWindow, drain_rate_allows, record_drain_attempt,
  drain_rate_remaining_ms,
}
use pqueue.Outbox.PolicyLaws.{
  compute_retry_delay-le, compute_retry_delay-exponential, record_drain_attempt-le,
  drain_rate_remaining-allows,
}
use pqueue.Outbox.{SendCallback, retry_later, drain_one, drain_up_to}
use pqueue.Outbox.Batch.{drain_up_to-Drained}
use pqueue.Outbox.Delivery.{Watching, Drained, drain_one-Drained}
use pqueue.Examples.Cells.{two_held, cells, cell_store}

abbrev full_queue : Queue cell_store
full_queue = record {
  lock_held = false;
  index = record { head = 0; tail = 0; count = 0 };
  store = two_held 7 (1 ∷ []) (2 ∷ 3 ∷ []);
}

abbrev evicting : Config
evicting = record { record_size_bytes = 492; full_queue_policy = drop_oldest }

abbrev no_calls : Tally
no_calls = record { locked = false; outside = 0; popped = 0; pushed = 0 }

abbrev full_watched : Watched cell_store
full_watched = record {
  lock_held = false;
  index = record { head = 0; tail = 0; count = 0 };
  store = (no_calls, two_held 7 (1 ∷ []) (2 ∷ 3 ∷ []));
}

full_watched-IsIdle : IsIdle cell_store full_watched
full_watched-IsIdle = record { held = refl; locked = refl }

eviction_runs :
    cells (enqueue cell_store evicting (4 ∷ []) full_queue).1.store ≡ (2 ∷ 3 ∷ []) ∷ (4 ∷ []) ∷ []
unfolding enqueue
eviction_runs = refl

pop-Did_example :
    let r = pop (tallied cell_store) full_watched in
    Did cell_store (one_if_ok r.0) 0 full_watched r.1
pop-Did_example = pop-Did cell_store full_watched full_watched-IsIdle

drop_front_if_corrupt-Did_example :
    let r = drop_front_if_corrupt (tallied cell_store) full_watched in
    Did cell_store (one_if_ok r.0) 0 full_watched r.1
drop_front_if_corrupt-Did_example =
    drop_front_if_corrupt-Did cell_store full_watched full_watched-IsIdle

abbrev counted_queue : Queue cell_store
counted_queue = record full_queue { index = record { head = 7; tail = 9; count = 2 } }

commit_loop-enough_example :
    commit_loop cell_store 3 drop_oldest 9 (4 ∷ []) (failure StatusCode.queue_full, counted_queue)
    ≡ commit_loop cell_store 2 drop_oldest 9 (4 ∷ []) (failure StatusCode.queue_full, counted_queue)
commit_loop-enough_example =
    commit_loop-enough cell_store drop_oldest 9 (4 ∷ []) 2 (failure StatusCode.queue_full)
      counted_queue (omega arith) (omega arith)

abbrev outbox_config : OutboxConfig
outbox_config = record {
  max_drain_attempts_per_second = 5;
  initial_retry_delay_ms = 10_000;
  max_retry_delay_ms = 60_000;
  jitter_pct = 20;
  max_corrupt_drops_per_lifetime = 3;
}

compute_retry_delay-le_example :
    compute_retry_delay outbox_config (some (λ range. range - 1)) 9 0 ≤ 60_000
compute_retry_delay-le_example =
    compute_retry_delay-le outbox_config (some (λ range. range - 1)) 9 0

compute_retry_delay-exponential_example :
    compute_retry_delay outbox_config none 2 0 ≡ min (10_000 * 2 ^ 2) 60_000
compute_retry_delay-exponential_example = compute_retry_delay-exponential outbox_config 2

abbrev busy_window : DrainWindow
busy_window = record { has_window = true; start_ms = 5_000; attempts = 4 }

abbrev full_window : DrainWindow
full_window = record { has_window = true; start_ms = 5_000; attempts = 5 }

record_drain_attempt-le_example : (record_drain_attempt busy_window 5_100).attempts ≤ 5
record_drain_attempt-le_example =
    record_drain_attempt-le outbox_config busy_window 5_100 (omega arith) allowed
  where
    allowed : drain_rate_allows outbox_config busy_window 5_100 ≡ true
    allowed = unfold drain_rate_allows in refl

drain_rate_remaining-allows_example :
    (drain_rate_allows outbox_config full_window (5_100 + drain_rate_remaining_ms full_window 5_100)
      ≡ true)
    × (0 < drain_rate_remaining_ms full_window 5_100)
    × (drain_rate_remaining_ms full_window 5_100 ≤ 1000)
drain_rate_remaining-allows_example =
    drain_rate_remaining-allows outbox_config full_window 5_100 (omega arith) (omega arith) refused
  where
    refused : drain_rate_allows outbox_config full_window 5_100 ≡ false
    refused = unfold drain_rate_allows in refl

abbrev waiting : Watching cell_store outbox_config evicting
waiting = record {
  queue = full_watched;
  has_front_cooldown = false;
  front_next_attempt_ms = 0;
  front_attempts = 0;
  window = busy_window;
  corrupt_drops = 0;
}

abbrev unreachable : SendCallback
unreachable payload attempts = record { decision = retry_later; retry_after_ms = 0 }

drain_one-Drained_example : Drained cell_store outbox_config evicting waiting (
    drain_one
      (tallied cell_store)
      outbox_config
      evicting
      (some unreachable)
      none
      true
      (some 5_100)
      waiting)
drain_one-Drained_example =
    drain_one-Drained cell_store outbox_config evicting (some unreachable) none true (some 5_100)
      waiting full_watched-IsIdle

drain_up_to-Drained_example : Drained cell_store outbox_config evicting waiting (
    drain_up_to
      (tallied cell_store)
      outbox_config
      evicting
      4
      (λ i. some unreachable)
      (λ i. none)
      (λ i. some (5_100 + i))
      waiting)
drain_up_to-Drained_example =
    drain_up_to-Drained cell_store outbox_config evicting (λ i. some unreachable) (λ i. none)
      (λ i. some (5_100 + i)) 4 waiting full_watched-IsIdle
