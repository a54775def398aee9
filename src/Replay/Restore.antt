-- ===== src/Replay/Restore.antt =====
-- The replay of all segments: after a clean shutdown and after a power loss in the middle of an
-- append, the mounted store holds the queue of the events that were written whole.
use pqueue.Base.{
  ℕ, ◌+◌, ◌≤◌, ◌≡◌, refl, sym, ap, ◌∙◌, Bool, true, false, List, [], ◌∷◌, ◌++◌, some, arith, length,
  take, drop, append_assoc, length-append, All, append-nil, le→not_ltb, drop-append_length,
  take-append_length, ==_refl, ◌⊎◌, inl, inr,
}
use pqueue.Bytes.{Bytes, IsU32}
use pqueue.LogFormat.{serialize_segment_header, parse_segment_header}
use pqueue.LogFormat.Headers.{
  parse-serialize_segment_header, header_of, serialize_segment_header-fields, length-fields,
}
use pqueue.Replay.{ReplayState, ScanExit, at_end}
use pqueue.Replay.Events.{LogEvent, Fits, log_bytes, Items, after_event, queue_after}
use pqueue.Replay.Segments.{
  finish_segment, scan_segment, scan_log, fresh, is_empty, max_replay_segment_read_bytes,
}
use pqueue.Replay.Contents.{contents, next_after}
use pqueue.Replay.Recovery.{
  log_size, state_after, numbers_after, Tail, clean, cut, scan_events-log, state_after-queue,
}

-- A segment as the store writes it: its header, then the events that were appended to it.
pub record Segment : Type 0 where
  pub generation : ℕ
  pub start_seq : ℕ
  pub events : List LogEvent

abbrev pub segment_bytes : Segment → Bytes
segment_bytes g = serialize_segment_header g.generation g.start_seq ++ log_bytes g.events

-- The file of a segment holds what was written, followed by `tail`.
pub record IsStored (file : ℕ → Bytes) (max : ℕ) (tail : Bytes) (g : Segment) : Type 0 where
  pub stored : file g.generation ≡ segment_bytes g ++ tail
  pub fit : All (Fits max) g.events
  pub generation_small : IsU32 g.generation
  pub start_small : IsU32 g.start_seq
  pub readable : length (file g.generation) ≤ max_replay_segment_read_bytes

abbrev pub files_of : (ℕ → Bytes) → List Segment → List (ℕ × Bytes)
files_of file [] = []
files_of file (g ∷ gs) = (g.generation, file g.generation) ∷ files_of file gs

abbrev pub events_of : List Segment → List LogEvent
events_of [] = []
events_of (g ∷ gs) = g.events ++ events_of gs

pub queue_after-append :
    (items : Items) (xs ys : List LogEvent)
    → queue_after items (xs ++ ys) ≡ queue_after (queue_after items xs) ys
unfolding queue_after
queue_after-append items [] ys = refl
queue_after-append items (x ∷ xs) ys = queue_after-append (after_event items x) xs ys

numbers_after-append :
    (n : ℕ) (xs ys : List LogEvent)
    → numbers_after n (xs ++ ys) ≡ numbers_after (numbers_after n xs) ys
unfolding numbers_after
numbers_after-append n [] ys = refl
numbers_after-append n (x ∷ xs) ys = numbers_after-append (next_after n x) xs ys

pub length-header : (g s : ℕ) → length (serialize_segment_header g s) ≡ 20
length-header g s = ap length (serialize_segment_header-fields g s) ∙ length-fields _ _ _ _ _ _

module _ (file : ℕ → Bytes) (max : ℕ) (tail : Bytes) (exit : ScanExit) (t : Tail max tail exit)
    (g : Segment) (h : IsStored file max tail g) (is_last : Bool)
    (ends : (exit ≡ at_end) ⊎ (is_last ≡ true)) where
  abbrev header : Bytes
  header = serialize_segment_header g.generation g.start_seq

  abbrev after : ReplayState → ReplayState
  after s = state_after is_last g.generation 20 s g.events

  stored_assoc : file g.generation ≡ header ++ (log_bytes g.events ++ tail)
  stored_assoc = h.stored ∙ append_assoc header (log_bytes g.events) tail

  long : 20 ≤ length (file g.generation)
  long = omega (
    arith,
    ap length stored_assoc,
    length-append header (log_bytes g.events ++ tail),
    length-header g.generation g.start_seq,
  )

  header_parses :
      parse_segment_header (take 20 (file g.generation)) ≡ some (header_of g.generation g.start_seq)
  header_parses =
      ap parse_segment_header (
        ap (take 20) stored_assoc
        ∙ ap (λ n. take n (header ++ (log_bytes g.events ++ tail)))
            (sym (length-header g.generation g.start_seq))
        ∙ take-append_length header _
        ∙ sym (append-nil header))
      ∙ parse-serialize_segment_header g.generation g.start_seq [] h.generation_small h.start_small

  behind_header : drop 20 (file g.generation) ≡ log_bytes g.events ++ tail
  behind_header =
      ap (drop 20) stored_assoc
      ∙ ap (λ n. drop n (header ++ (log_bytes g.events ++ tail)))
          (sym (length-header g.generation g.start_seq))
      ∙ drop-append_length header _

  finished :
      (offset : ℕ) (s : ReplayState) → finish_segment is_last (exit, offset, s) ≡ some (offset, s)
  unfolding finish_segment
  finished offset s = finished_by tail exit t ends
    where
      finished_by :
          (tl : Bytes) (x : ScanExit)
          → Tail max tl x
          → (x ≡ at_end) ⊎ (is_last ≡ true)
          → finish_segment is_last (x, offset, s) ≡ some (offset, s)
      finished_by tl x clean k = refl
      finished_by tl x (cut e y p l f w c) (inl k) = cc
      finished_by tl x (cut e y p l f w c) (inr k) = rw k refl

  -- A stored segment is accepted, and its events are applied in order.
  pub scan_segment-stored :
      (s : ReplayState)
      → scan_segment max is_last g.generation (file g.generation) s
        ≡ some (20 + log_size g.events, after s)
  unfolding scan_segment
  scan_segment-stored s =
      rw
        (
          le→not_ltb (length (file g.generation)) 20 long,
          le→not_ltb 262144 (length (file g.generation)) h.readable,
        )
        (rw header_parses (
          rw (==_refl g.generation) (
            ap (finish_segment is_last) (
              scan_events-log max g.generation is_last (file g.generation)
                (length (file g.generation)) 20 g.events tail exit s h.fit t behind_header long
                (omega arith))
            ∙ finished (20 + log_size g.events) (after s))))

  -- The queue and the counter behind the segment.
  after-queue :
      (s : ReplayState)
      → (contents file (after s).records ≡ queue_after (contents file s.records) g.events)
        × ((after s).next_sequence ≡ numbers_after s.next_sequence g.events)
  after-queue s =
      state_after-queue file max g.generation is_last 20 g.events tail s h.fit behind_header

-- What the theorem says of a replay: it succeeds, with the bytes of the last segment that hold whole
-- events, and its records and counter are those of the log.
abbrev pub Restores : (ℕ → Bytes) → ℕ → List Segment → Segment → ℕ → ReplayState → Type 0
Restores file max sealed active bytes s =
    (t : ReplayState) × (scan_log max (files_of file (sealed ++ (active ∷ []))) bytes s
      ≡ some (20 + log_size active.events, t))
    × (contents file t.records
        ≡ queue_after (contents file s.records) (events_of (sealed ++ (active ∷ []))))
    × (t.next_sequence ≡ numbers_after s.next_sequence (events_of (sealed ++ (active ∷ []))))

module _ (file : ℕ → Bytes) (max : ℕ) (active : Segment) (tail : Bytes) (exit : ScanExit)
    (t : Tail max tail exit) (h : IsStored file max tail active) where
  pub more_to_come : (gs : List Segment) → is_empty (files_of file (gs ++ (active ∷ []))) ≡ false
  more_to_come [] = refl
  more_to_come (g ∷ gs) = refl

  scan_log-Restores :
      (sealed : List Segment) (bytes : ℕ) (s : ReplayState)
      → All (IsStored file max []) sealed
      → Restores file max sealed active bytes s
  unfolding scan_log
  scan_log-Restores [] bytes s hs =
      let (q, n) = after-queue file max tail exit t active h true (inr refl) s in
      (
        state_after true active.generation 20 s active.events,
        rw (scan_segment-stored file max tail exit t active h true (inr refl) s) refl,
        q ∙ ap (queue_after (contents file s.records)) (sym (append-nil active.events)),
        n ∙ ap (numbers_after s.next_sequence) (sym (append-nil active.events)),
      )
  scan_log-Restores (g ∷ gs) bytes s (hg, hs) =
      let u = state_after false g.generation 20 s g.events in
      let (q, n) = after-queue file max [] at_end clean g hg false (inl refl) s in
      let (v, e, qs, ns) = scan_log-Restores gs (20 + log_size g.events) u hs in
      let rest = events_of (gs ++ (active ∷ [])) in
      (
        v,
        rw (more_to_come gs)
            (rw (scan_segment-stored file max [] at_end clean g hg false (inl refl) s) e),
        qs
            ∙ ap (λ i. queue_after i rest) q
            ∙ sym (queue_after-append (contents file s.records) g.events rest),
        ns
            ∙ ap (λ i. numbers_after i rest) n
            ∙ sym (numbers_after-append s.next_sequence g.events rest),
      )

-- A mount that reads sealed segments and an active one, whose file may end in a proper part of an
-- event, succeeds; its records read back exactly the queue of all events that were written whole,
-- and its counter is raised by each of them in turn.
pub scan_log-recovers :
    (file : ℕ → Bytes) (max : ℕ) (sealed : List Segment) (active : Segment) (tail : Bytes)
    (exit : ScanExit)
    → Tail max tail exit
    → All (IsStored file max []) sealed
    → IsStored file max tail active
    → (t : ReplayState) × (scan_log max (files_of file (sealed ++ (active ∷ []))) 0 fresh
        ≡ some (20 + log_size active.events, t))
      × (contents file t.records ≡ queue_after [] (events_of (sealed ++ (active ∷ []))))
      × (t.next_sequence ≡ numbers_after 0 (events_of (sealed ++ (active ∷ []))))
scan_log-recovers file max sealed active tail exit t hs h =
    scan_log-Restores file max active tail exit t h sealed 0 fresh hs
