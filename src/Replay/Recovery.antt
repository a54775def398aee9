-- ===== src/Replay/Recovery.antt =====
-- The replay of a log gives the queue that the log stands for, up to a part of an event at its end.
use pqueue.Base.{
  ℕ, zero, suc, ◌+◌, ◌≤◌, ◌<◌, ◌≡◌, refl, sym, ap, ◌∙◌, Bool, List, [], ◌∷◌, ◌++◌, arith, length,
  drop, append_assoc, length-append, All, lt→ltb, le→not_ltb, length-drop, drop-append_length,
  drop-add,
}
use pqueue.Bytes.{Bytes}
use pqueue.Replay.{
  ReplayState, ScanExit, at_end, at_torn, scan_events, apply_found, find_event, end_round, Scanned,
}
use pqueue.Replay.Events.{LogEvent, Fits, event_bytes, log_bytes, queue_after}
use pqueue.Replay.Torn.{found_of, event_size, length-event_bytes, find-event_bytes, find_event-torn}
use pqueue.Replay.Contents.{contents, contents-apply_found, next_after, next-apply_found}

-- The bytes of a log.
abbrev pub log_size : List LogEvent → ℕ
log_size [] = 0
log_size (e ∷ es) = event_size e + log_size es

-- The replayed state behind a log that stands at an offset.
abbrev pub state_after : Bool → ℕ → ℕ → ReplayState → List LogEvent → ReplayState
state_after is_last gen offset s [] = s
state_after is_last gen offset s (e ∷ es) =
    state_after is_last gen (offset + event_size e) (apply_found is_last gen offset (found_of e) s)
      es

unfoldable pub numbers_after : ℕ → List LogEvent → ℕ
numbers_after next [] = next
numbers_after next (e ∷ es) = numbers_after (next_after next e) es

-- What a power loss can leave behind the last whole event: nothing, or a proper part of an event.
pub data Tail (max : ℕ) : Bytes → ScanExit → Type 0 where
  clean : Tail max [] at_end
  cut :
      (e : LogEvent) (x : ℕ) (part lost : Bytes)
      → Fits max e
      → event_bytes e ≡ (x ∷ part) ++ lost
      → suc (length part) < event_size e
      → Tail max (x ∷ part) at_torn

event_size-pos : (e : LogEvent) → 0 < event_size e
event_size-pos (LogEvent.enqueue s p) = omega arith
event_size-pos (LogEvent.rewrite s p) = omega arith
event_size-pos (LogEvent.pop s) = omega arith

length-drop_le : (n : ℕ) (xs ys : Bytes) → drop n xs ≡ ys → length xs ≤ n + length ys
length-drop_le zero xs ys e = omega (arith, ap length e)
length-drop_le (suc n) [] ys e = omega arith
length-drop_le (suc n) (x ∷ xs) ys e = omega (arith, length-drop_le n xs ys e)

length-of_drop :
    (n : ℕ) (xs : Bytes) (y : ℕ) (ys : Bytes) → drop n xs ≡ y ∷ ys → length xs ≡ n + suc (length ys)
length-of_drop zero xs y ys e = omega (arith, ap length e)
length-of_drop (suc n) [] y ys e = cc
length-of_drop (suc n) (x ∷ xs) y ys e = omega (arith, length-of_drop n xs y ys e)

module _ (max gen : ℕ) (is_last : Bool) (buf : Bytes) where
  offset-lt :
      (offset : ℕ) (ev : LogEvent) (rest : Bytes)
      → Fits max ev
      → drop offset buf ≡ event_bytes ev ++ rest
      → offset + event_size ev ≤ length buf
  offset-lt offset ev rest fit e = omega (
    arith,
    ap length e,
    length-append (event_bytes ev) rest,
    length-drop offset buf,
    length-event_bytes max ev fit,
    event_size-pos ev,
  )

  -- One round, with the state change and the search for the event kept shut.
  round :
      (fuel offset : ℕ) (s : ReplayState)
      → offset < length buf
      → scan_events (suc fuel) max is_last gen buf offset s
        ≡ end_round
            (scan_events fuel max is_last gen buf)
            is_last
            gen
            offset
            (find_event max (drop offset buf))
            s
  unfolding scan_events
  round fuel offset s h = rw (lt→ltb offset (length buf) h) refl

  end_round-found :
      (next : ℕ → ReplayState → Scanned) (offset : ℕ) (ev : LogEvent) (s : ReplayState)
      → end_round next is_last gen offset (found_of ev) s
        ≡ next (offset + event_size ev) (apply_found is_last gen offset (found_of ev) s)
  unfolding end_round
  end_round-found next offset (LogEvent.enqueue seq p) s = refl
  end_round-found next offset (LogEvent.rewrite seq p) s = refl
  end_round-found next offset (LogEvent.pop seq) s = refl

  scan_events_step :
      (fuel offset : ℕ) (ev : LogEvent) (s : ReplayState) (rest : Bytes)
      → Fits max ev
      → drop offset buf ≡ event_bytes ev ++ rest
      → scan_events (suc fuel) max is_last gen buf offset s
        ≡ scan_events fuel max is_last gen buf
            (offset + event_size ev)
            (apply_found is_last gen offset (found_of ev) s)
  scan_events_step fuel offset ev s rest fit e =
      round fuel offset s (omega (arith, offset-lt offset ev rest fit e, event_size-pos ev))
      ∙ ap (λ f. end_round (scan_events fuel max is_last gen buf) is_last gen offset f s)
          (ap (find_event max) e ∙ find-event_bytes max ev rest fit)
      ∙ end_round-found (scan_events fuel max is_last gen buf) offset ev s

  scan_events-Tail :
      (fuel offset : ℕ) (tail : Bytes) (exit : ScanExit) (s : ReplayState)
      → Tail max tail exit
      → drop offset buf ≡ tail
      → scan_events (suc fuel) max is_last gen buf offset s ≡ (exit, offset, s)
  scan_events-Tail fuel offset tail exit s clean e =
      unfold scan_events in
      (rw (le→not_ltb offset (length buf) (omega (arith, length-drop_le offset buf [] e))) refl)
  scan_events-Tail fuel offset tail exit s (cut ev x part lost fits whole short) e =
      round fuel offset s (omega (arith, length-of_drop offset buf x part e))
      ∙ ap (λ f. end_round (scan_events fuel max is_last gen buf) is_last gen offset f s)
          (ap (find_event max) e ∙ find_event-torn max ev (x ∷ part) lost fits whole short)
      ∙ (unfold end_round in refl)

  behind_event :
      (offset : ℕ) (ev : LogEvent) (rest : Bytes)
      → Fits max ev
      → drop offset buf ≡ event_bytes ev ++ rest
      → drop (offset + event_size ev) buf ≡ rest
  behind_event offset ev rest fit e =
      drop-add offset (event_size ev) buf
      ∙ ap (drop (event_size ev)) e
      ∙ ap (λ n. drop n (event_bytes ev ++ rest)) (sym (length-event_bytes max ev fit))
      ∙ drop-append_length (event_bytes ev) rest

  -- The scan of a log and its tail applies the events in order and stops behind the last of them.
  pub scan_events-log :
      (fuel offset : ℕ) (es : List LogEvent) (tail : Bytes) (exit : ScanExit) (s : ReplayState)
      → All (Fits max) es
      → Tail max tail exit
      → drop offset buf ≡ log_bytes es ++ tail
      → offset ≤ length buf
      → length buf < offset + fuel
      → scan_events fuel max is_last gen buf offset s
        ≡ (exit, offset + log_size es, state_after is_last gen offset s es)
  scan_events-log zero offset es tail exit s fits t e low enough = absurd (omega arith)
  scan_events-log (suc fuel) offset [] tail exit s fits t e low enough =
      scan_events-Tail fuel offset tail exit s t e ∙ ap (λ n. (exit, n, s)) (omega arith)
  scan_events-log (suc fuel) offset (ev ∷ es) tail exit s (fit, fits) t e low enough =
      let e' = e ∙ append_assoc (event_bytes ev) (log_bytes es) tail in
      let size = event_size-pos ev in
      scan_events_step fuel offset ev s (log_bytes es ++ tail) fit e'
      ∙ scan_events-log fuel (offset + event_size ev) es tail exit _ fits t
          (behind_event offset ev _ fit e') (offset-lt offset ev _ fit e') (omega arith)
      ∙ ap
          (λ n. (
            exit,
            n,
            state_after is_last gen (offset + event_size ev)
                (apply_found is_last gen offset (found_of ev) s) es,
          ))
          (omega arith)

module _ (file : ℕ → Bytes) (max gen : ℕ) (is_last : Bool) where
  -- The replayed state holds the queue of the log, and the counter of its sequence numbers.
  pub state_after-queue :
      (offset : ℕ) (es : List LogEvent) (rest : Bytes) (s : ReplayState)
      → All (Fits max) es
      → drop offset (file gen) ≡ log_bytes es ++ rest
      → let t = state_after is_last gen offset s es in
        (contents file t.records ≡ queue_after (contents file s.records) es)
        × (t.next_sequence ≡ numbers_after s.next_sequence es)
  unfolding queue_after numbers_after
  state_after-queue offset [] rest s fits e = (refl, refl)
  state_after-queue offset (ev ∷ es) rest s (fit, fits) e =
      let e' = e ∙ append_assoc (event_bytes ev) (log_bytes es) rest in
      let (q, n) =
        state_after-queue (offset + event_size ev) es rest
          (apply_found is_last gen offset (found_of ev) s) fits
          (behind_event max gen is_last (file gen) offset ev (log_bytes es ++ rest) fit e') in
      (
        q
            ∙ ap (λ t. queue_after t es)
                (contents-apply_found file max is_last gen offset ev s (log_bytes es ++ rest) fit
                  e'),
        n ∙ ap (λ t. numbers_after t es) (next-apply_found is_last gen offset ev s),
      )
