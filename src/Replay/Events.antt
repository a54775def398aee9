-- ===== src/Replay/Events.antt =====
-- The abstract log: events on sequence numbers and payloads, and the queue that a log of them
-- stands for. It knows nothing of segments, offsets or bytes.
use pqueue.Base.{ℕ, ◌+◌, ◌^◌, ◌≤◌, ◌<◌, Bool, List, [], ◌∷◌, ◌++◌, ltb, ◌==◌, if◌then◌else◌, length}
use pqueue.Bytes.{Bytes, IsU32}
use pqueue.LogFormat.{serialize_enqueue_event, serialize_rewrite_event, serialize_pop_event}

pub data LogEvent : Type 0 where
  enqueue rewrite : ℕ → Bytes → LogEvent
  pop : ℕ → LogEvent

-- The bytes that the store appends for an event.
abbrev pub event_bytes : LogEvent → Bytes
event_bytes (enqueue seq payload) = serialize_enqueue_event seq payload
event_bytes (rewrite seq payload) = serialize_rewrite_event seq payload
event_bytes (pop seq) = serialize_pop_event seq

abbrev pub log_bytes : List LogEvent → Bytes
log_bytes [] = []
log_bytes (e ∷ es) = event_bytes e ++ log_bytes es

-- Events that the store can have written under a limit on the size of a record.
abbrev pub Fits : ℕ → LogEvent → Type 0
Fits max (enqueue seq payload) = IsU32 seq × (length payload ≤ max) × (max + 24 < 2 ^ 32)
Fits max (rewrite seq payload) = IsU32 seq × (length payload ≤ max) × (max + 24 < 2 ^ 32)
Fits max (pop seq) = IsU32 seq × Unit × Unit

-- A queue of payloads under their sequence numbers, the head first.
abbrev pub Items : Type 0
Items = List (ℕ × Bytes)

abbrev pub has_item : ℕ → Items → Bool
has_item seq [] = Bool.false
has_item seq ((k, p) ∷ items) = if k == seq then Bool.true else has_item seq items

abbrev pub replace_item : ℕ → Bytes → Items → Items
replace_item seq payload [] = []
replace_item seq payload ((k, p) ∷ items) =
    if k == seq then (seq, payload) ∷ items else (k, p) ∷ replace_item seq payload items

abbrev pub insert_item : ℕ → Bytes → Items → Items
insert_item seq payload [] = (seq, payload) ∷ []
insert_item seq payload ((k, p) ∷ items) =
    if ltb k seq then (k, p) ∷ insert_item seq payload items else (seq, payload) ∷ ((k, p) ∷ items)

abbrev pub pop_item : ℕ → Items → Items
pop_item seq [] = []
pop_item seq ((k, p) ∷ items) = if k == seq then items else (k, p) ∷ items

-- The queue after an event. A rewrite of a number that is not in the queue puts it in its place.
abbrev pub after_event : Items → LogEvent → Items
after_event items (enqueue seq payload) = items ++ ((seq, payload) ∷ [])
after_event items (rewrite seq payload) =
    if has_item seq items then replace_item seq payload items else insert_item seq payload items
after_event items (pop seq) = pop_item seq items

unfoldable pub queue_after : Items → List LogEvent → Items
queue_after items [] = items
queue_after items (e ∷ es) = queue_after (after_event items e) es
