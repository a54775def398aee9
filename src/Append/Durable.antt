-- ===== src/Append/Durable.antt =====
-- An event that is appended to the tail: its file, and the fields in memory beside those of a replay.
use pqueue.Base.{
  ℕ, ◌+◌, ◌≤◌, ◌≡◌, ◌≢◌, refl, sym, ap, ◌∙◌, inl, inr, true, List, [], ◌∷◌, arith, length, All,
  Bool-cases, true≢false,
}
use pqueue.Bytes.{Bytes, IsU32}
use pqueue.LogFormat.{to_u32}
use pqueue.Status.{Status, is_ok}
use pqueue.FileSystem.{FileSystem, AppendLaws}
use pqueue.Replay.Events.{LogEvent, Fits, event_bytes}
use pqueue.Replay.Torn.{event_size, length-event_bytes}
use pqueue.Replay.Segments.{max_replay_segment_read_bytes}
use pqueue.Replay.Recovery.{log_size}
use pqueue.Replay.Restore.{Segment}
use pqueue.Store.{Store}
use pqueue.Store.Names.{segment_name}
use pqueue.Append.{Outcome, and_then, append_enqueue_event_bytes, count_appended}
use pqueue.Append.Live.{
  segment_names_differ, with_event, replay_of, IsOnDisk, IsOnDisk-kept, IsOnDisk-with_event,
}

module _ (fs : FileSystem) where
  pub and_then-ok :
      (r : Outcome fs) (next : Store → fs.State → Outcome fs)
      → is_ok (and_then fs r next).0 ≡ true
      → (is_ok r.0 ≡ true) × (and_then fs r next ≡ next r.1 r.2)
  unfolding and_then
  and_then-ok (st, m, s) next ok = elim (Bool-cases (is_ok st)) [
    | inl e ↦ rw e (refl, refl)
    | inr e ↦ absurd (true≢false (sym (rw e at ok) ∙ e))
  ]

  -- The segments in their files, and the fields in memory that a replay of them would find.
  pub record IsLive (max : ℕ) (m : Store) (s : fs.State) (sealed : List Segment) (active : Segment)
      : Type 0 where
    pub sealed_stored : All (IsOnDisk fs max s) sealed
    pub active_stored : IsOnDisk fs max s active
    pub apart : All (λ g. g.generation ≢ active.generation) sealed
    pub mounted : m.mounted ≡ true
    pub tail_is : m.active_generation ≡ active.generation
    pub bytes_are : m.active_segment_bytes ≡ 20 + log_size active.events
    pub records_are : m.records ≡ (replay_of sealed active).records
    pub tracked : m.tail_dependencies_tracked ≡ true
    pub affected_are : m.tail_affected ≡ (replay_of sealed active).tail_affected

  pub All-kept :
      (max : ℕ) (s t : fs.State) (gen : ℕ) (gs : List Segment)
      → IsU32 gen
      → ((g : Segment)
          → segment_name g.generation ≢ segment_name gen
          → fs.read_file (segment_name g.generation) t ≡ fs.read_file (segment_name g.generation) s)
      → All (λ g. g.generation ≢ gen) gs
      → All (IsOnDisk fs max s) gs
      → All (IsOnDisk fs max t) gs
  All-kept max s t gen [] small same ds hs = tt
  All-kept max s t gen (g ∷ gs) small same (d, ds) (h, hs) = (
    IsOnDisk-kept fs max s t g
        (same g (segment_names_differ g.generation gen h.holds.generation_small small d)) h,
    All-kept max s t gen gs small same ds hs,
  )

  pub append_write-ok :
      (bytes : Bytes) (m : Store) (s : fs.State)
      → let r = append_enqueue_event_bytes fs bytes m s in
        let w = fs.write_at (segment_name m.active_generation) m.active_segment_bytes bytes s in
        is_ok r.0 ≡ true
        → (is_ok w.0 ≡ true) × (r.1 ≡ count_appended (to_u32 (length bytes)) m) × (r.2 ≡ w.1)
  unfolding append_enqueue_event_bytes
  append_write-ok bytes m s ok =
      elim (Bool-cases
        (is_ok (fs.write_at (segment_name m.active_generation) m.active_segment_bytes bytes s).0)) [
          | inl w ↦ rw w (refl, refl, refl)
          | inr w ↦ absurd (true≢false (sym (rw w at ok) ∙ w))
        ]

  module _ (laws : AppendLaws fs) (max : ℕ) (m : Store) (s : fs.State) (sealed : List Segment)
      (active : Segment) (h : IsLive max m s sealed active) (e : LogEvent) (fits : Fits max e)
      (room : 20 + log_size active.events + event_size e ≤ max_replay_segment_read_bytes) where
    abbrev pub appended : Outcome fs
    appended = append_enqueue_event_bytes fs (event_bytes e) m s

    abbrev write_from : ℕ → ℕ → Status × fs.State
    write_from gen at = fs.write_at (segment_name gen) at (event_bytes e) s

    abbrev write : Status × fs.State
    write = write_from active.generation (20 + log_size active.events)

    same_write : write_from m.active_generation m.active_segment_bytes ≡ write
    same_write =
        ap (λ g. write_from g m.active_segment_bytes) h.tail_is
        ∙ ap (write_from active.generation) h.bytes_are

    -- What is known of an append that succeeds.
    pub append-IsOnDisk :
        is_ok appended.0 ≡ true
        → (appended.1 ≡ count_appended (event_size e) m)
          × All (IsOnDisk fs max appended.2) sealed
          × IsOnDisk fs max appended.2 (with_event active e)
    append-IsOnDisk ok =
        let (w, counted, state) = append_write-ok (event_bytes e) m s ok in
        let written : is_ok write.0 ≡ true = ap (λ r. is_ok r.0) (sym same_write) ∙ w in
        let state' : appended.2 ≡ write.1 = state ∙ ap (λ r. r.1) same_write in
        rw state' (
          counted ∙ ap (λ n. count_appended n m) sized,
          All-kept max s write.1 active.generation sealed h.active_stored.holds.generation_small
              (λ g d.
                laws.read_beside (segment_name active.generation) (segment_name g.generation)
                  (20 + log_size active.events) (event_bytes e) s d)
              h.apart h.sealed_stored,
          IsOnDisk-with_event fs laws max s active e h.active_stored fits room written,
        )
      where
        sized : to_u32 (length (event_bytes e)) ≡ event_size e
        sized = omega (arith, room, length-event_bytes max e fits)
