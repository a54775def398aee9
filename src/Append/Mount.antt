-- ===== src/Append/Mount.antt =====
-- Mounting the store, AppendLogStore::mount and what stands around the loop over the segments in
-- AppendLogStore::scanSegments, src/pqueue/append_log_store/store.cpp. The files are read in front
-- of the scan, not between its segments: a failure has the same status either way, and the fields
-- that it leaves behind are cleared by the next mount, which every operation starts with.
use pqueue.Base.{
  ℕ, ◌+◌, ◌-◌, Bool, true, false, ◌&&◌, List, [], ◌∷◌, Option, none, some, ltb, ◌==◌, if◌then◌else◌,
  ◌>>=◌, length,
}
use pqueue.Bytes.{Bytes}
use pqueue.LogFormat.{to_u32}
use pqueue.Status.{Status, StatusCode, success, failure, is_ok}
use pqueue.FileSystem.{FileSystem, Name}
use pqueue.Manifest.{ManifestData, ManifestRange}
use pqueue.Manifest.Slots.{slot_name, read_manifest, apply_manifest_to_ram}
use pqueue.Replay.{ReplayState}
use pqueue.Replay.Segments.{scan_log, fresh}
use pqueue.Store.{Store, Slot, slot_a, slot_b}
use pqueue.Store.Names.{segment_name, is_segment_name}
use pqueue.Store.Tracked.{set_sealed}
use pqueue.Append.{StoreConfig, Outcome, and_then}
use pqueue.Compaction.Run.{cleanup_one_dangling_segment}

unfoldable pub insert_generation : ℕ → List ℕ → List ℕ
insert_generation g [] = g ∷ []
insert_generation g (x ∷ xs) = if ltb x g then x ∷ insert_generation g xs else g ∷ (x ∷ xs)

-- `sortedGenerations`
unfoldable pub segment_generations : List Name → List ℕ
unfolding insert_generation is_segment_name
segment_generations [] = []
segment_generations (name ∷ names) = elim (is_segment_name name) [
  | none ↦ segment_generations names
  | some gen ↦ insert_generation gen (segment_generations names)
]

unfoldable pub cleared : Store → Store
cleared m = record m {
  records = [];
  active_generations = [];
  sealed_segment_bytes = [];
  cached_written_slot = none;
  cached_written_epoch = 0;
  active_generation = 0;
  active_segment_bytes = 0;
  next_generation = 1;
  next_sequence = 0;
  manifest_bytes_a = 0;
  manifest_bytes_b = 0;
}

-- `kManifestMaxTotalGenerations`
abbrev pub manifest_max_total_generations : ℕ
manifest_max_total_generations = 1025

-- The generations that the manifest spans, on 64 bits.
unfoldable pub total_generations : ℕ → List ManifestRange → ℕ
total_generations acc [] = acc
total_generations acc (r ∷ rs) = total_generations (acc + (r.end_gen + 1 - r.start_gen)) rs

abbrev is_none {ℓ} : {A : Type ℓ} → List A → Bool
is_none [] = true
is_none (x ∷ xs) = false

-- `none` is the status DataCorrupt.
unfoldable pub load_manifest : List ℕ → Option ManifestData → Store → Option Store
unfolding total_generations apply_manifest_to_ram
load_manifest gens none m = if is_none gens then some m else none
load_manifest gens (some manifest) m =
    if ltb manifest_max_total_generations
      (total_generations (if manifest.tail_generation == 0 then 0 else 1) manifest.ranges)
    then none
    else some (apply_manifest_to_ram manifest m)

-- `if (g + 1 > nextGeneration_) nextGeneration_ = g + 1`
unfoldable pub past_generations : ℕ → List ℕ → ℕ
past_generations next [] = next
past_generations next (g ∷ gs) =
    past_generations (if ltb next (to_u32 (g + 1)) then to_u32 (g + 1) else next) gs

-- The generation and the bytes of the last file.
unfoldable pub last_file : List (ℕ × Bytes) → Option (ℕ × Bytes)
last_file [] = none
last_file (f ∷ []) = some f
last_file (f ∷ f' ∷ fs) = last_file (f' ∷ fs)

module _ (fs : FileSystem) where
  abbrev file_of : ℕ → Status × ℕ → Status × Bytes → Option (ℕ × Bytes)
  file_of gen (sized, size) (read, bytes) =
      if is_ok sized && is_ok read && length bytes == size then some (gen, bytes) else none

  unfoldable pub read_segments : List ℕ → fs.State → Option (List (ℕ × Bytes))
  read_segments [] s = some []
  read_segments (gen ∷ gens) s = do
    file ← file_of gen (fs.file_size (segment_name gen) s) (fs.read_file (segment_name gen) s)
    files ← read_segments gens s
    some (file ∷ files)

  -- A tail that does not end with a whole event is cut off. The status is ignored.
  unfoldable pub truncate_tail : ℕ → Option (ℕ × Bytes) → fs.State → fs.State
  truncate_tail bytes none s = s
  truncate_tail bytes (some (gen, seg_buf)) s =
      if ltb bytes (length seg_buf) then (fs.resize_file (segment_name gen) bytes s).1 else s

  abbrev last_generation : Option (ℕ × Bytes) → ℕ
  last_generation none = 0
  last_generation (some (gen, bytes)) = gen

  -- `totalOnDiskBytes_` and `sealedSegmentBytes_`, from the files' sizes.
  unfoldable pub count_files : List ℕ → Store → fs.State → Outcome fs
  unfolding set_sealed
  count_files [] m s = (success, m, s)
  count_files (gen ∷ gens) m s =
      let (st, size) = fs.file_size (segment_name gen) s in
      let counted = record m {
        total_on_disk_bytes = to_u32 (m.total_on_disk_bytes + to_u32 size);
        sealed_segment_bytes = set_sealed gen (to_u32 size) m.sealed_segment_bytes;
      } in
      let rest = count_files gens counted s in if is_ok st then rest else (st, m, s)

  abbrev with_slot : Slot → ℕ → Store → Store
  with_slot slot_a size m = record m {
    total_on_disk_bytes = to_u32 (m.total_on_disk_bytes + size);
    manifest_bytes_a = size;
  }
  with_slot slot_b size m = record m {
    total_on_disk_bytes = to_u32 (m.total_on_disk_bytes + size);
    manifest_bytes_b = size;
  }

  unfoldable pub count_slot : Slot → Store → fs.State → Store
  count_slot slot m s =
      let (st, size) = fs.file_size (slot_name slot) s in
      if is_ok st then with_slot slot (to_u32 size) m else m

  -- The fields behind the replay, of which the last segment ends at `bytes`.
  unfoldable pub replayed : Option (ℕ × Bytes) → ℕ → ReplayState → Store → Store
  replayed last bytes t m = record m {
    records = t.records;
    next_sequence = t.next_sequence;
    active_generation = last_generation last;
    active_segment_bytes = bytes;
    total_on_disk_bytes = 0;
  }

  unfoldable pub finish_scan : List ℕ → List ℕ → Store → fs.State → Outcome fs
  unfolding and_then count_files count_slot cleanup_one_dangling_segment
  finish_scan gens affected m s = and_then fs (count_files gens m s) (λ m1 s1.
      let m2 = count_slot slot_b (count_slot slot_a m1 s1) s1 in
      let (m3, s3) =
        cleanup_one_dangling_segment fs
          (record m2 { tail_dependencies_tracked = true; tail_affected = affected }) s1 in
      (success, m3, s3))

  -- What follows the loop over the segments, with its result.
  unfoldable pub after_scan :
      List ℕ → Option (ℕ × Bytes) → Option (ℕ × ReplayState) → Store → fs.State → Outcome fs
  unfolding truncate_tail replayed finish_scan
  after_scan gens last none m s = (failure StatusCode.data_corrupt, m, s)
  after_scan gens last (some (bytes, t)) m s =
      finish_scan gens t.tail_affected (replayed last bytes t m) (truncate_tail bytes last s)

  unfoldable pub scan_files :
      StoreConfig → List ℕ → Option (List (ℕ × Bytes)) → Store → fs.State → Outcome fs
  unfolding scan_log last_file after_scan
  scan_files config gens none m s = (failure StatusCode.data_corrupt, m, s)
  scan_files config gens (some files) m s =
      after_scan gens (last_file files) (scan_log config.max_record_bytes files 0 fresh) m s

  unfoldable pub scan_loaded : StoreConfig → List ℕ → Option Store → Store → fs.State → Outcome fs
  unfolding past_generations read_segments scan_files
  scan_loaded config gens none m s = (failure StatusCode.data_corrupt, m, s)
  scan_loaded config gens (some loaded) m s =
      scan_files config gens (read_segments loaded.active_generations s)
        (record loaded { next_generation = past_generations loaded.next_generation gens }) s

  unfoldable pub scan_segments : StoreConfig → Store → fs.State → Outcome fs
  unfolding segment_generations cleared load_manifest read_manifest scan_loaded
  scan_segments config m s =
      let (st, files) = fs.list_files s in
      let gens = segment_generations files in
      if is_ok st
      then scan_loaded config gens (load_manifest gens (read_manifest fs s) (cleared m)) (cleared m)
          s
      else (st, m, s)

  abbrev mounted_store : Store → fs.State → Outcome fs
  mounted_store m s = (success, record m { mounted = true }, s)

  unfoldable pub mount : StoreConfig → Store → fs.State → Outcome fs
  unfolding and_then scan_segments
  mount config m s =
      let (st, s') = fs.mount s in
      if is_ok st then and_then fs (scan_segments config m s') mounted_store else (st, m, s')

  unfoldable pub ensure_mounted : StoreConfig → Store → fs.State → Outcome fs
  unfolding mount
  ensure_mounted config m s = if m.mounted then (success, m, s) else mount config m s
