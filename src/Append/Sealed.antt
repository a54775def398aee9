-- ===== src/Append/Sealed.antt =====
-- The sealing of a tail, in the records of the replay and in what the tail affected.
use pqueue.Base.{
  ℕ, ◌+◌, ◌≡◌, refl, sym, ap, ◌∙◌, inl, inr, Bool, true, false, List, [], ◌∷◌, ◌++◌, Option, none,
  some, Bool-cases, ◌==◌, append_assoc, append-nil,
}
use pqueue.Replay.{
  SegmentRecord, ReplayState, Found, apply_found, apply_rewrite, apply_pop, find_generation,
  record_at,
}
use pqueue.Replay.Events.{LogEvent}
use pqueue.Replay.Torn.{found_of, event_size}
use pqueue.Replay.Segments.{fresh}
use pqueue.Replay.Recovery.{state_after}
use pqueue.Replay.Restore.{Segment, events_of}
use pqueue.Append.Live.{log_state, replay_of}

-- An event that the scan finds changes the records alike in the last segment and in any other.
apply_found-records :
    (a b : Bool) (gen offset : ℕ) (f : Found) (t u : ReplayState)
    → t.records ≡ u.records
    → (apply_found a gen offset f t).records ≡ (apply_found b gen offset f u).records
unfolding apply_found apply_rewrite apply_pop
apply_found-records a b gen offset Found.torn t u e = e
apply_found-records a b gen offset Found.corrupt t u e = e
apply_found-records a b gen offset (Found.enqueue seq bytes total) t u e =
    ap (λ rs. rs ++ (record_at gen offset seq bytes ∷ [])) e
apply_found-records a b gen offset (Found.rewrite seq bytes total) t u e =
    rewrites (find_generation seq t.records) (find_generation seq u.records)
      (ap (find_generation seq) e)
  where
    rewrites :
        (x y : Option ℕ)
        → x ≡ y
        → (apply_rewrite a (record_at gen offset seq bytes) x t).records
          ≡ (apply_rewrite b (record_at gen offset seq bytes) y u).records
    rewrites none none same = rw e refl
    rewrites (some g) (some g') same = rw e refl
    rewrites none (some g) same = cc
    rewrites (some g) none same = cc
apply_found-records a b gen offset (Found.pop seq total) t u e =
    ap (λ rs. (apply_pop a seq rs t).records) e ∙ pops u.records e refl
  where
    pops :
        (rs : List SegmentRecord)
        → t.records ≡ rs
        → u.records ≡ rs
        → (apply_pop a seq rs t).records ≡ (apply_pop b seq rs u).records
    pops [] et eu = et ∙ sym eu
    pops (r ∷ rs) et eu = elim (Bool-cases (r.sequence == seq)) [
      | inl k ↦ rw k refl
      | inr k ↦ rw k (et ∙ sym eu)
    ]

state_after-records :
    (a b : Bool) (gen offset : ℕ) (t u : ReplayState) (es : List LogEvent)
    → t.records ≡ u.records
    → (state_after a gen offset t es).records ≡ (state_after b gen offset u es).records
state_after-records a b gen offset t u [] e = e
state_after-records a b gen offset t u (x ∷ es) e =
    state_after-records a b gen (offset + event_size x) (apply_found a gen offset (found_of x) t)
      (apply_found b gen offset (found_of x) u) es
      (apply_found-records a b gen offset (found_of x) t u e)

-- Outside the last segment, no event notes what it affects.
apply_found-unaffected :
    (gen offset : ℕ) (f : Found) (t : ReplayState)
    → (apply_found false gen offset f t).tail_affected ≡ t.tail_affected
unfolding apply_found apply_rewrite apply_pop
apply_found-unaffected gen offset Found.torn t = refl
apply_found-unaffected gen offset Found.corrupt t = refl
apply_found-unaffected gen offset (Found.enqueue seq bytes total) t = refl
apply_found-unaffected gen offset (Found.rewrite seq bytes total) t =
    rewrites (find_generation seq t.records)
  where
    rewrites :
        (x : Option ℕ)
        → (apply_rewrite false (record_at gen offset seq bytes) x t).tail_affected ≡ t.tail_affected
    rewrites none = refl
    rewrites (some g) = refl
apply_found-unaffected gen offset (Found.pop seq total) t = pops t.records
  where
    pops : (rs : List SegmentRecord) → (apply_pop false seq rs t).tail_affected ≡ t.tail_affected
    pops [] = refl
    pops (r ∷ rs) = elim (Bool-cases (r.sequence == seq)) [ inl k ↦ rw k refl | inr k ↦ rw k refl ]

state_after-unaffected :
    (gen offset : ℕ) (t : ReplayState) (es : List LogEvent)
    → (state_after false gen offset t es).tail_affected ≡ t.tail_affected
state_after-unaffected gen offset t [] = refl
state_after-unaffected gen offset t (x ∷ es) =
    state_after-unaffected gen (offset + event_size x) (apply_found false gen offset (found_of x) t)
      es
    ∙ apply_found-unaffected gen offset (found_of x) t

log_state-append :
    (gs hs : List Segment) (t : ReplayState)
    → log_state (gs ++ hs) t ≡ log_state hs (log_state gs t)
log_state-append [] hs t = refl
log_state-append (g ∷ gs) hs t =
    log_state-append gs hs (state_after false g.generation 20 t g.events)

log_state-unaffected :
    (gs : List Segment) (t : ReplayState) → (log_state gs t).tail_affected ≡ t.tail_affected
log_state-unaffected [] t = refl
log_state-unaffected (g ∷ gs) t =
    log_state-unaffected gs (state_after false g.generation 20 t g.events)
    ∙ state_after-unaffected g.generation 20 t g.events

-- The replay behind an empty new tail: the records are those of before.
pub replay_of-sealed :
    (sealed : List Segment) (active new : Segment)
    → new.events ≡ []
    → ((replay_of (sealed ++ (active ∷ [])) new).records ≡ (replay_of sealed active).records)
      × ((replay_of (sealed ++ (active ∷ [])) new).tail_affected ≡ [])
replay_of-sealed sealed active new e = (
  ap (λ es. (state_after true new.generation 20 sealed_state es).records) e
      ∙ ap ReplayState.records (log_state-append sealed (active ∷ []) fresh)
      ∙ state_after-records false true active.generation 20 (log_state sealed fresh)
          (log_state sealed fresh) active.events refl,
  ap (λ es. (state_after true new.generation 20 sealed_state es).tail_affected) e
      ∙ log_state-unaffected (sealed ++ (active ∷ [])) fresh,
)
  where
    sealed_state : ReplayState
    sealed_state = log_state (sealed ++ (active ∷ [])) fresh

pub events_of-append :
    (gs : List Segment) (g : Segment) → events_of (gs ++ (g ∷ [])) ≡ events_of gs ++ g.events
events_of-append [] g = append-nil g.events
events_of-append (x ∷ gs) g =
    ap (λ t. x.events ++ t) (events_of-append gs g)
    ∙ sym (append_assoc x.events (events_of gs) g.events)
