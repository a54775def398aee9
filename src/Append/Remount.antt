-- ===== src/Append/Remount.antt =====
-- A mount of the files of a log, by any store object, beside the store that wrote them.
use pqueue.Base.{ℕ, ◌+◌, ◌≤◌, ◌≡◌, true, List, [], ◌∷◌, ◌++◌, some, All}
use pqueue.Bytes.{Bytes}
use pqueue.Status.{is_ok}
use pqueue.FileSystem.{FileSystem, FileSystemLaws, AppendLaws}
use pqueue.Replay.Events.{LogEvent}
use pqueue.Replay.Recovery.{log_size}
use pqueue.Replay.Restore.{Segment}
use pqueue.Store.{Store}
use pqueue.Store.Names.{segment_name}
use pqueue.Append.{StoreConfig}
use pqueue.Append.Mount.{manifest_max_total_generations, total_generations, replayed}
use pqueue.Append.Live.{file_at, replay_of}
use pqueue.Append.Commits.{IsLogged}

-- The fields that a mount finds, as the store had them.
pub record SameFields (m m' : Store) : Type 0 where
  pub same_records : m'.records ≡ m.records
  pub same_tail : m'.active_generation ≡ m.active_generation
  pub same_bytes : m'.active_segment_bytes ≡ m.active_segment_bytes
  pub same_ranges : m'.manifest_ranges ≡ m.manifest_ranges

module _ (fs : FileSystem) where
  abbrev HasSizes : List ℕ → fs.State → Type 0
  HasSizes gens s = All (λ g. is_ok (fs.file_size (segment_name g) s).0 ≡ true) gens

module _ (fs : FileSystem) (laws : FileSystemLaws fs) (appends : AppendLaws fs)
    (config : StoreConfig) (m : Store) (s : fs.State) (events : List LogEvent)
    (l : IsLogged fs laws appends config.max_record_bytes m s events)
    (few : total_generations 1 m.manifest_ranges ≤ manifest_max_total_generations) where
  abbrev segments : List Segment
  segments = l.sealed ++ (l.active ∷ [])

  abbrev found : Store → Store
  found m1 =
      replayed fs (some (l.active.generation, file_at fs s l.active.generation))
        (20 + log_size l.active.events) (replay_of l.sealed l.active) m1
