-- ===== src/Replay/Contents.antt =====
-- The records of the scan as a queue of payloads: each names the segment, the offset and the length
-- under which its payload stands. One event changes the queue as the abstract log says.
use pqueue.Base.{
  ℕ, ◌+◌, ◌^◌, ◌<◌, ◌≡◌, refl, ap, ◌∙◌, inl, inr, ◌⊎◌, Bool, true, false, List, [], ◌∷◌, ◌++◌, none,
  some, arith, length, take, drop, ltb, ◌==◌, append_assoc, take-append_length, Bool-cases,
  drop-add,
}
use pqueue.Bytes.{Bytes, u32_bytes, u16_bytes}
use pqueue.LogFormat.{
  enqueue_magic, rewrite_magic, serialize_payload_event, serialize_enqueue_event,
  serialize_rewrite_event,
}
use pqueue.Replay.{
  SegmentRecord, ReplayState, substr, replace_record, find_generation, insert_record, advance,
  apply_rewrite, apply_pop, record_at, apply_found,
}
use pqueue.Replay.Events.{
  LogEvent, Fits, event_bytes, Items, has_item, replace_item, insert_item, pop_item, after_event,
}
use pqueue.Replay.Decode.{header16, trailer, header_record, serialize_payload_event_parts}
use pqueue.Replay.Torn.{found_of}

-- The payload stands 16 bytes behind the start of its event.
payload_of_event :
    (buf rest : Bytes) (offset m s : ℕ) (p : Bytes)
    → length p < 2 ^ 32
    → drop offset buf ≡ serialize_payload_event m s p ++ rest
    → substr buf (offset + 16) (length p) ≡ p
payload_of_event buf rest offset m s p small e =
    ap (take (length p)) (
      drop-add offset 16 buf
      ∙ ap (drop 16) (
          e
          ∙ ap (λ t. t ++ rest) (serialize_payload_event_parts m s p small)
          ∙ append_assoc (header16 m s (length p)) _ rest)
      ∙ behind
      ∙ append_assoc p _ rest)
    ∙ take-append_length p _
  where
    behind :
        drop 16
          (header16 m s (length p) ++ ((p ++ trailer (header_record m s (length p)) p) ++ rest))
        ≡ (p ++ trailer (header_record m s (length p)) p) ++ rest
    behind = unfold header16 u32_bytes u16_bytes in refl

module _ (file : ℕ → Bytes) where
  abbrev pub item_of : SegmentRecord → ℕ × Bytes
  item_of r = (r.sequence, substr (file r.segment_generation) r.payload_offset r.payload_bytes)

  abbrev pub contents : List SegmentRecord → Items
  contents [] = []
  contents (r ∷ rs) = item_of r ∷ contents rs

  pub contents-append :
      (rs ts : List SegmentRecord) → contents (rs ++ ts) ≡ contents rs ++ contents ts
  contents-append [] ts = refl
  contents-append (r ∷ rs) ts = ap (λ t. item_of r ∷ t) (contents-append rs ts)

  module _ (sr : SegmentRecord) (p : Bytes) (stored : item_of sr ≡ (sr.sequence, p)) where
    contents-replace_record :
        (rs : List SegmentRecord)
        → contents (replace_record sr rs) ≡ replace_item sr.sequence p (contents rs)
    unfolding replace_record
    contents-replace_record [] = refl
    contents-replace_record (r ∷ rs) = elim (Bool-cases (r.sequence == sr.sequence)) [
      | inl e ↦ rw e (ap (λ t. t ∷ contents rs) stored)
      | inr e ↦ rw e (ap (λ t. item_of r ∷ t) (contents-replace_record rs))
    ]

    contents-insert_record :
        (rs : List SegmentRecord)
        → contents (insert_record sr rs) ≡ insert_item sr.sequence p (contents rs)
    unfolding insert_record
    contents-insert_record [] = ap (λ t. t ∷ []) stored
    contents-insert_record (r ∷ rs) = elim (Bool-cases (ltb r.sequence sr.sequence)) [
      | inl e ↦ rw e (ap (λ t. item_of r ∷ t) (contents-insert_record rs))
      | inr e ↦ rw e (ap (λ t. t ∷ (item_of r ∷ contents rs)) stored)
    ]

  -- The lookup of a sequence number finds a generation exactly if the queue has the number.
  find_generation-has_item :
      (seq : ℕ) (rs : List SegmentRecord)
      → ((find_generation seq rs ≡ none) × (has_item seq (contents rs) ≡ false))
        ⊎ ((g : ℕ) × (find_generation seq rs ≡ some g) × (has_item seq (contents rs) ≡ true))
  unfolding find_generation
  find_generation-has_item seq [] = inl (refl, refl)
  find_generation-has_item seq (r ∷ rs) = elim (Bool-cases (r.sequence == seq)) [
    | inl e ↦ rw e (inr (r.segment_generation, refl, refl))
    | inr e ↦ rw e (find_generation-has_item seq rs)
  ]

  contents-apply_pop :
      (is_last : Bool) (seq : ℕ) (rs : List SegmentRecord) (s : ReplayState)
      → s.records ≡ rs
      → contents (apply_pop is_last seq rs s).records ≡ pop_item seq (contents rs)
  unfolding apply_pop
  contents-apply_pop is_last seq [] s e = ap contents e
  contents-apply_pop is_last seq (r ∷ rs) s e = elim (Bool-cases (r.sequence == seq)) [
    | inl t ↦ rw t refl
    | inr t ↦ rw t (ap contents e)
  ]

  contents-apply_rewrite :
      (is_last : Bool) (sr : SegmentRecord) (p : Bytes) (s : ReplayState)
      → item_of sr ≡ (sr.sequence, p)
      → contents (apply_rewrite is_last sr (find_generation sr.sequence s.records) s).records
        ≡ after_event (contents s.records) (LogEvent.rewrite sr.sequence p)
  unfolding apply_rewrite
  contents-apply_rewrite is_last sr p s stored =
      elim (find_generation-has_item sr.sequence s.records) [
        | inl (e, h) ↦ rw (e, h) (contents-insert_record sr p stored s.records)
        | inr (g, e, h) ↦ rw (e, h) (contents-replace_record sr p stored s.records)
      ]

  -- An event that stands at the offset changes the queue of payloads as in the abstract log.
  pub contents-apply_found :
      (max : ℕ) (is_last : Bool) (gen offset : ℕ) (e : LogEvent) (s : ReplayState) (rest : Bytes)
      → Fits max e
      → drop offset (file gen) ≡ event_bytes e ++ rest
      → contents (apply_found is_last gen offset (found_of e) s).records
        ≡ after_event (contents s.records) e
  unfolding apply_found serialize_enqueue_event serialize_rewrite_event
  contents-apply_found max is_last gen offset (LogEvent.enqueue seq p) s rest (_, small, room) at =
      contents-append s.records (record_at gen offset seq (length p) ∷ [])
      ∙ ap (λ t. contents s.records ++ ((seq, t) ∷ []))
          (payload_of_event (file gen) rest offset enqueue_magic seq p (omega arith) at)
  contents-apply_found max is_last gen offset (LogEvent.rewrite seq p) s rest (_, small, room) at =
      contents-apply_rewrite is_last (record_at gen offset seq (length p)) p s (
        ap (λ t. (seq, t))
          (payload_of_event (file gen) rest offset rewrite_magic seq p (omega arith) at))
  contents-apply_found max is_last gen offset (LogEvent.pop seq) s rest fits at =
      contents-apply_pop is_last seq s.records s refl

-- The counter of sequence numbers behind an event.
abbrev pub next_after : ℕ → LogEvent → ℕ
next_after next (LogEvent.enqueue seq p) = advance next seq
next_after next (LogEvent.rewrite seq p) = advance next seq
next_after next (LogEvent.pop seq) = advance next seq

pub next-apply_found :
    (is_last : Bool) (gen offset : ℕ) (e : LogEvent) (s : ReplayState)
    → (apply_found is_last gen offset (found_of e) s).next_sequence ≡ next_after s.next_sequence e
unfolding apply_found
next-apply_found is_last gen offset (LogEvent.enqueue seq p) s = refl
next-apply_found is_last gen offset (LogEvent.rewrite seq p) s = refl
next-apply_found is_last gen offset (LogEvent.pop seq) s = refl
