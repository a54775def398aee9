-- ===== src/Append/Reread.antt =====
-- The replay of the files of a log, the records that the store has in memory, and the queue that the
-- log's events stand for.
use pqueue.Base.{
  ℕ, ◌+◌, ◌≡◌, refl, sym, ap, ◌∙◌, inl, inr, true, false, List, [], ◌∷◌, ◌++◌, some, some-inj,
  length, All, ◌==◌, ==_refl,
}
use pqueue.FileSystem.{FileSystem, FileSystemLaws, AppendLaws}
use pqueue.Replay.{ReplayState, at_end}
use pqueue.Replay.Contents.{contents}
use pqueue.Replay.Events.{LogEvent, queue_after}
use pqueue.Replay.Segments.{scan_log, fresh}
use pqueue.Replay.Recovery.{log_size, state_after, clean}
use pqueue.Replay.Restore.{
  Segment, IsStored, files_of, events_of, scan_segment-stored, more_to_come, scan_log-recovers,
}
use pqueue.Store.{Store}
use pqueue.Store.Names.{segment_name}
use pqueue.Append.Mount.{read_segments}
use pqueue.Append.Live.{file_at, IsOnDisk, log_state, replay_of}
use pqueue.Append.Durable.{IsLive}
use pqueue.Append.Rotate.{generations_of}
use pqueue.Append.Commits.{IsLogged}

module _ (fs : FileSystem) where
  held_all :
      (max : ℕ) (s : fs.State) (gs : List Segment)
      → All (IsOnDisk fs max s) gs
      → All (IsStored (file_at fs s) max []) gs
  held_all max s [] hs = tt
  held_all max s (g ∷ gs) (h, hs) = (h.holds, held_all max s gs hs)

  scan_log-from :
      (max : ℕ) (s : fs.State) (sealed : List Segment) (active : Segment) (bytes : ℕ)
      (t : ReplayState)
      → All (IsOnDisk fs max s) sealed
      → IsOnDisk fs max s active
      → scan_log max (files_of (file_at fs s) (sealed ++ (active ∷ []))) bytes t
        ≡ some (
          20 + log_size active.events,
          state_after true active.generation 20 (log_state sealed t) active.events,
        )
  unfolding scan_log
  scan_log-from max s [] active bytes t hs h =
      rw (scan_segment-stored (file_at fs s) max [] at_end clean active h.holds true (inr refl) t)
        refl
  scan_log-from max s (g ∷ gs) active bytes t (k, ks) h =
      rw (more_to_come (file_at fs s) max active [] at_end clean h.holds gs) (
        rw (scan_segment-stored (file_at fs s) max [] at_end clean g k.holds false (inl refl) t) (
          scan_log-from max s gs active (20 + log_size g.events)
            (state_after false g.generation 20 t g.events) ks h))

  -- The scan of the files of a live log.
  pub scan_log-IsLive :
      (max : ℕ) (m : Store) (s : fs.State) (sealed : List Segment) (active : Segment)
      → IsLive fs max m s sealed active
      → scan_log max (files_of (file_at fs s) (sealed ++ (active ∷ []))) 0 fresh
        ≡ some (20 + log_size active.events, replay_of sealed active)
  scan_log-IsLive max m s sealed active h =
      scan_log-from max s sealed active 0 fresh h.sealed_stored h.active_stored

  contents-IsLive :
      (max : ℕ) (m : Store) (s : fs.State) (sealed : List Segment) (active : Segment)
      → IsLive fs max m s sealed active
      → contents (file_at fs s) m.records ≡ queue_after [] (events_of (sealed ++ (active ∷ [])))
  contents-IsLive max m s sealed active h =
      let (t, scanned, queue, numbers) =
        scan_log-recovers (file_at fs s) max sealed active [] at_end clean
          (held_all max s sealed h.sealed_stored) h.active_stored.holds in
      let same : t ≡ replay_of sealed active =
        ap (λ p. p.1) (some-inj (sym scanned ∙ scan_log-IsLive max m s sealed active h)) in
      ap (contents (file_at fs s)) (h.records_are ∙ ap ReplayState.records (sym same)) ∙ queue

  module _ (laws : FileSystemLaws fs) (appends : AppendLaws fs) where
    -- Where the store has written the events, the records in memory, each with the payload that stands
    -- in its file at its place, are the queue that the events stand for.
    pub contents-IsLogged :
        (max : ℕ) (m : Store) (s : fs.State) (events : List LogEvent)
        → IsLogged fs laws appends max m s events
        → contents (file_at fs s) m.records ≡ queue_after [] events
    contents-IsLogged max m s events l =
        contents-IsLive max m s l.sealed l.active l.live ∙ ap (queue_after []) l.events_are

    -- The files of segments that can be read are read.
    pub read_segments-IsOnDisk :
        (max : ℕ) (s : fs.State) (gs : List Segment)
        → All (IsOnDisk fs max s) gs
        → read_segments fs (generations_of gs) s ≡ some (files_of (file_at fs s) gs)
    unfolding read_segments
    read_segments-IsOnDisk max s [] hs = refl
    read_segments-IsOnDisk max s (g ∷ gs) (h, hs) =
        let name = segment_name g.generation in
        let sized = laws.size_of_readable name s h.can_read in
        let same : (length (fs.read_file name s).1 == (fs.file_size name s).1) ≡ true =
          rw (appends.size_is_length name s h.can_read)
            (==_refl (length (fs.read_file name s).1)) in
        rw (sized, h.can_read, same) (rw (read_segments-IsOnDisk max s gs hs) refl)
