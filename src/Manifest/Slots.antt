-- ===== src/Manifest/Slots.antt =====
-- The two manifest slots, src/pqueue/append_log_store/manifest.cpp: a manifest is published into
-- the slot that does not hold the current one, and read from the slot with the higher epoch. The
-- file system is a parameter; that `fs()` finds none is not modelled.
pub mod Election
pub mod Publish
use pqueue.Base.{
  ℕ, zero, suc, ◌+◌, ◌-◌, ◌%◌, ◌^◌, ◌≡◌, Bool, true, false, not, ◌&&◌, ◌||◌, List, [], ◌∷◌, ◌++◌,
  Option, none, some, ltb, leb, ◌==◌, if◌then◌else◌, length,
}
use pqueue.Bytes.{Bytes}
use pqueue.LogFormat.{to_u32}
use pqueue.Status.{Status, StatusCode, success, failure, is_ok}
use pqueue.FileSystem.{FileSystem, Name, codes}
use pqueue.Manifest.{ManifestData, ManifestRange, serialise_manifest, parse_manifest}
use pqueue.Store.{Store, Slot, slot_a, slot_b}
use pqueue.Store.Tracked.{may_overwrite, write_segment_file_tracked}

abbrev pub slot_name : Slot → Name
slot_name slot_a = codes "manifest-a.bin"
slot_name slot_b = codes "manifest-b.bin"

abbrev pub other_slot : Slot → Slot
other_slot slot_a = slot_b
other_slot slot_b = slot_a

-- `validA` and `mdA` of the source are one value, `none` for a slot that does not parse.
unfoldable pub choose_inactive_slot :
    Bool → Option ManifestData → Bool → Option ManifestData → Option Slot
choose_inactive_slot exists_a none exists_b none =
    if not exists_a && not exists_b then some slot_a else none
choose_inactive_slot exists_a none exists_b (some md_b) = some slot_a
choose_inactive_slot exists_a (some md_a) exists_b none = some slot_b
choose_inactive_slot exists_a (some md_a) exists_b (some md_b) =
    if leb md_b.epoch md_a.epoch then some slot_b else some slot_a

unfoldable pub choose_winning_slot : Option ManifestData → Option ManifestData → Option ManifestData
choose_winning_slot none none = none
choose_winning_slot (some md_a) none = some md_a
choose_winning_slot none (some md_b) = some md_b
choose_winning_slot (some md_a) (some md_b) =
    if ltb md_a.epoch md_b.epoch then some md_b else some md_a

-- `for (g = r.startGen; g <= r.endGen; ++g)`, for a range that ends below 2^32 - 1.
unfoldable pub generations_from : ℕ → ℕ → List ℕ
generations_from start zero = []
generations_from start (suc n) = start ∷ generations_from (start + 1) n

unfoldable pub range_generations : List ManifestRange → List ℕ
unfolding generations_from
range_generations [] = []
range_generations (r ∷ rs) =
    generations_from r.start_gen (r.end_gen + 1 - r.start_gen) ++ range_generations rs

unfoldable pub apply_manifest_to_ram : ManifestData → Store → Store
unfolding range_generations
apply_manifest_to_ram md m = record m {
  manifest_ranges = md.ranges;
  active_generations =
      range_generations md.ranges
      ++ (if md.tail_generation == 0 then [] else md.tail_generation ∷ []);
  next_generation = md.next_generation;
}

abbrev pub epoch_or_zero : Option ManifestData → ℕ
epoch_or_zero none = 0
epoch_or_zero (some md) = md.epoch

abbrev pub with_epoch : Option Slot → ℕ → Option (Slot × ℕ)
with_epoch none epoch = none
with_epoch (some slot) epoch = some (slot, epoch)

-- The cache behind a publish: the slot that was written, its epoch and its size.
unfoldable pub remember_slot : Slot → ℕ → ℕ → Store → Store
remember_slot slot_a epoch size m = record m {
  cached_written_slot = some slot_a;
  cached_written_epoch = epoch;
  manifest_bytes_a = size;
}
remember_slot slot_b epoch size m = record m {
  cached_written_slot = some slot_b;
  cached_written_epoch = epoch;
  manifest_bytes_b = size;
}

module _ (fs : FileSystem) where
  unfoldable pub file_exists : Slot → fs.State → Bool
  file_exists slot s = is_ok (fs.file_size (slot_name slot) s).0

  unfoldable pub try_read : Slot → fs.State → Option ManifestData
  try_read slot s =
      let (st, bytes) = fs.read_file (slot_name slot) s in
      if is_ok st then parse_manifest bytes else none

  unfoldable pub read_manifest : fs.State → Option ManifestData
  unfolding choose_winning_slot try_read
  read_manifest s = choose_winning_slot (try_read slot_a s) (try_read slot_b s)

  -- `existsA && tryRead(kManifestSlotA, mdA)`
  unfoldable pub probe : Slot → fs.State → Option ManifestData
  unfolding file_exists try_read
  probe slot s = if file_exists slot s then try_read slot s else none

  -- The slot to write and the winning epoch, from the cache or from the disk.
  unfoldable pub choose_target : Option Slot → ℕ → fs.State → Option (Slot × ℕ)
  unfolding probe choose_inactive_slot choose_winning_slot
  choose_target (some slot) cached_epoch s = some (other_slot slot, cached_epoch)
  choose_target none cached_epoch s =
      with_epoch
        (choose_inactive_slot (file_exists slot_a s) (probe slot_a s) (file_exists slot_b s)
          (probe slot_b s))
        (epoch_or_zero (choose_winning_slot (probe slot_a s) (probe slot_b s)))

  -- What follows the write: the state in memory changes only if it succeeded.
  unfoldable pub finish_publish :
      Slot → ManifestData → ℕ → Status × Store × fs.State → Status × Store × fs.State
  unfolding apply_manifest_to_ram remember_slot
  finish_publish slot to_write size (st, m, s) =
      if is_ok st
      then (success, remember_slot slot to_write.epoch size (apply_manifest_to_ram to_write m), s)
      else (st, m, s)

  unfoldable pub publish_to :
      ManifestData → Option (Slot × ℕ) → Store → fs.State → Status × Store × fs.State
  unfolding finish_publish
  publish_to manifest none m s = (failure StatusCode.data_corrupt, m, s)
  publish_to manifest (some (slot, winning_epoch)) m s =
      let to_write = record manifest { epoch = to_u32 (winning_epoch + 1) } in
      let bytes = serialise_manifest to_write in
      finish_publish slot to_write (to_u32 (length bytes))
        (write_segment_file_tracked fs (slot_name slot) bytes may_overwrite m s)

  unfoldable pub publish_manifest : ManifestData → Store → fs.State → Status × Store × fs.State
  unfolding publish_to choose_target
  publish_manifest manifest m s =
      publish_to manifest (choose_target m.cached_written_slot m.cached_written_epoch s) m s
