-- ===== src/Append/Live.antt =====
-- The log that the store has written: its segments as they stand in their files, and the fields in
-- memory, which are those that a replay of the log would find.
use pqueue.Base.{
  ℕ, ◌+◌, ◌≤◌, ◌≡◌, ◌≢◌, refl, sym, ap, ◌∙◌, subst, Bool, true, false, List, [], ◌∷◌, ◌++◌, arith,
  length, All, All-append, append_assoc, append-nil, length-append, some-inj,
}
use pqueue.Bytes.{Bytes, IsU32}
use pqueue.LogFormat.{serialize_segment_header}
use pqueue.LogFormat.Headers.{serialize_segment_header-fields, length-fields}
use pqueue.Status.{is_ok}
use pqueue.FileSystem.{FileSystem, AppendLaws}
use pqueue.Replay.{ReplayState, apply_found}
use pqueue.Replay.Events.{LogEvent, Fits, event_bytes, log_bytes}
use pqueue.Replay.Torn.{found_of, event_size, length-event_bytes}
use pqueue.Replay.Segments.{fresh, max_replay_segment_read_bytes}
use pqueue.Replay.Recovery.{log_size, state_after}
use pqueue.Replay.Restore.{Segment, segment_bytes, IsStored}
use pqueue.Store.Names.{segment_name, is_segment_name}
use pqueue.Store.NameLaws.{is_segment_name-segment_name}

pub segment_names_differ : (a b : ℕ) → IsU32 a → IsU32 b → a ≢ b → segment_name a ≢ segment_name b
segment_names_differ a b ha hb h e = absurd (
    h (
      some-inj (
        sym (is_segment_name-segment_name a ha)
        ∙ ap is_segment_name e
        ∙ is_segment_name-segment_name b hb)))

-- The segment behind one more event.
abbrev pub with_event : Segment → LogEvent → Segment
with_event g e = record g { events = g.events ++ (e ∷ []) }

-- The replay of sealed segments, and of the tail behind them.
abbrev pub log_state : List Segment → ReplayState → ReplayState
log_state [] t = t
log_state (g ∷ gs) t = log_state gs (state_after false g.generation 20 t g.events)

abbrev pub replay_of : List Segment → Segment → ReplayState
replay_of sealed active =
    state_after true active.generation 20 (log_state sealed fresh) active.events

pub state_after-append :
    (is_last : Bool) (gen offset : ℕ) (t : ReplayState) (es : List LogEvent) (e : LogEvent)
    → state_after is_last gen offset t (es ++ (e ∷ []))
      ≡ apply_found is_last gen
          (offset + log_size es)
          (found_of e)
          (state_after is_last gen offset t es)
state_after-append is_last gen offset t [] e =
    ap (λ o. apply_found is_last gen o (found_of e) t) (omega arith)
state_after-append is_last gen offset t (x ∷ es) e =
    state_after-append is_last gen (offset + event_size x)
      (apply_found is_last gen offset (found_of x) t) es e
    ∙ ap
        (λ o. apply_found is_last gen o (found_of e) (
          state_after is_last gen (offset + event_size x)
            (apply_found is_last gen offset (found_of x) t) es))
        (omega arith)

pub log_size-append :
    (es : List LogEvent) (e : LogEvent) → log_size (es ++ (e ∷ [])) ≡ log_size es + event_size e
log_size-append [] e = omega arith
log_size-append (x ∷ es) e = omega (arith, log_size-append es e)

log_bytes-append :
    (es : List LogEvent) (e : LogEvent) → log_bytes (es ++ (e ∷ [])) ≡ log_bytes es ++ event_bytes e
log_bytes-append [] e = append-nil (event_bytes e)
log_bytes-append (x ∷ es) e =
    ap (λ t. event_bytes x ++ t) (log_bytes-append es e)
    ∙ sym (append_assoc (event_bytes x) (log_bytes es) (event_bytes e))

length-log_bytes :
    (max : ℕ) (es : List LogEvent) → All (Fits max) es → length (log_bytes es) ≡ log_size es
length-log_bytes max [] h = refl
length-log_bytes max (e ∷ es) (h, hs) = omega (
  arith,
  length-append (event_bytes e) (log_bytes es),
  length-event_bytes max e h,
  length-log_bytes max es hs,
)

pub length-segment_bytes :
    (max : ℕ) (g : Segment)
    → All (Fits max) g.events
    → length (segment_bytes g) ≡ 20 + log_size g.events
length-segment_bytes max g h = omega (
  arith,
  length-append (serialize_segment_header g.generation g.start_seq) (log_bytes g.events),
  ap length (serialize_segment_header-fields g.generation g.start_seq) ∙ length-fields _ _ _ _ _ _,
  length-log_bytes max g.events h,
)

segment_bytes-with_event :
    (g : Segment) (e : LogEvent) → segment_bytes (with_event g e) ≡ segment_bytes g ++ event_bytes e
segment_bytes-with_event g e =
    ap (λ t. serialize_segment_header g.generation g.start_seq ++ t) (log_bytes-append g.events e)
    ∙ sym (
        append_assoc (serialize_segment_header g.generation g.start_seq) (log_bytes g.events)
          (event_bytes e))

module _ (fs : FileSystem) where
  abbrev pub file_at : fs.State → ℕ → Bytes
  file_at s gen = (fs.read_file (segment_name gen) s).1

  -- A segment's file can be read, and holds the header and the events with nothing behind them.
  pub record IsOnDisk (max : ℕ) (s : fs.State) (g : Segment) : Type 0 where
    pub can_read : is_ok (fs.read_file (segment_name g.generation) s).0 ≡ true
    pub holds : IsStored (file_at s) max [] g

  pub IsOnDisk-kept :
      (max : ℕ) (s t : fs.State) (g : Segment)
      → fs.read_file (segment_name g.generation) t ≡ fs.read_file (segment_name g.generation) s
      → IsOnDisk max s g
      → IsOnDisk max t g
  IsOnDisk-kept max s t g e h = record {
    can_read = ap (λ r. is_ok r.0) e ∙ h.can_read;
    holds = record {
      stored = ap (λ r. r.1) e ∙ h.holds.stored;
      fit = h.holds.fit;
      generation_small = h.holds.generation_small;
      start_small = h.holds.start_small;
      readable = subst (λ r. length r.1 ≤ max_replay_segment_read_bytes) (sym e) h.holds.readable;
    };
  }

  pub length-file_at :
      (max : ℕ) (s : fs.State) (g : Segment)
      → IsOnDisk max s g
      → length (file_at s g.generation) ≡ 20 + log_size g.events
  length-file_at max s g h =
      ap length (h.holds.stored ∙ append-nil (segment_bytes g))
      ∙ length-segment_bytes max g h.holds.fit

  module _ (laws : AppendLaws fs) where
    -- An event that is written behind the last one stands in the file.
    pub IsOnDisk-with_event :
        (max : ℕ) (s : fs.State) (g : Segment) (e : LogEvent)
        → IsOnDisk max s g
        → Fits max e
        → 20 + log_size g.events + event_size e ≤ max_replay_segment_read_bytes
        → let w =
            fs.write_at (segment_name g.generation) (20 + log_size g.events) (event_bytes e) s in
          is_ok w.0 ≡ true → IsOnDisk max w.1 (with_event g e)
    IsOnDisk-with_event max s g e h fits room ok = record {
      can_read = done.0;
      holds = record {
        stored = whole;
        fit = All-append (Fits max) g.events (e ∷ []) h.holds.fit (fits, tt);
        generation_small = h.holds.generation_small;
        start_small = h.holds.start_small;
        readable = omega (
          arith,
          ap length (whole ∙ append-nil (segment_bytes (with_event g e))),
          length-segment_bytes max (with_event g e)
              (All-append (Fits max) g.events (e ∷ []) h.holds.fit (fits, tt)),
          log_size-append g.events e,
        );
      };
    }
      where
        at : 20 + log_size g.events ≡ length (file_at s g.generation)
        at = sym (length-file_at max s g h)

        done :
            let t =
              (fs.write_at
                (segment_name g.generation)
                (20 + log_size g.events)
                (event_bytes e)
                s).1 in
            (is_ok (fs.read_file (segment_name g.generation) t).0 ≡ true)
            × ((fs.read_file (segment_name g.generation) t).1
                ≡ file_at s g.generation ++ event_bytes e)
        done =
            subst
              (λ n.
                (is_ok
                    (fs.read_file (segment_name g.generation)
                      (fs.write_at (segment_name g.generation) n (event_bytes e) s).1).0
                  ≡ true)
                × ((fs.read_file (segment_name g.generation)
                      (fs.write_at (segment_name g.generation) n (event_bytes e) s).1).1
                    ≡ file_at s g.generation ++ event_bytes e))
              (sym at)
              (laws.read_appended (segment_name g.generation) (event_bytes e) s h.can_read (
                subst
                  (λ n.
                    is_ok (fs.write_at (segment_name g.generation) n (event_bytes e) s).0 ≡ true)
                  at ok))

        whole :
            file_at
              (fs.write_at (segment_name g.generation) (20 + log_size g.events) (event_bytes e) s).1
              g.generation
            ≡ segment_bytes (with_event g e) ++ []
        whole =
            done.1
            ∙ ap (λ t. t ++ event_bytes e) (h.holds.stored ∙ append-nil (segment_bytes g))
            ∙ sym (segment_bytes-with_event g e)
            ∙ sym (append-nil (segment_bytes (with_event g e)))
