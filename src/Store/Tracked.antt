-- ===== src/Store/Tracked.antt =====
-- Writing a whole file with the byte counters kept, `writeSegmentFileTracked` of
-- src/pqueue/append_log_store/store.cpp. The old size is 0 where the file has none.
use pqueue.Base.{ℕ, ◌+◌, ◌-◌, ◌^◌, not, List, ◌∷◌, Option, none, some, leb, if◌then◌else◌, length}
use pqueue.Bytes.{Bytes}
use pqueue.LogFormat.{to_u32}
use pqueue.Status.{Status, success, is_ok}
use pqueue.FileSystem.{FileSystem, Name}
use pqueue.Store.{Store}
use pqueue.Store.Names.{is_segment_name}

pub data SegmentWriteDisposition : Type 0 where
  must_be_new may_overwrite : SegmentWriteDisposition

-- `sealedSegmentBytes_[gen] = size`
unfoldable pub set_sealed : ℕ → ℕ → List (ℕ × ℕ) → List (ℕ × ℕ)
set_sealed gen size sizes = (gen, size) ∷ sizes

-- Unsigned addition and subtraction on 32 bits.
unfoldable pub resize_total : ℕ → ℕ → ℕ → ℕ
resize_total total old_size new_size =
    if leb old_size new_size
    then to_u32 (total + (new_size - old_size))
    else to_u32 (total + 2 ^ 32 - (old_size - new_size))

unfoldable pub note_size : Option ℕ → ℕ → List (ℕ × ℕ) → List (ℕ × ℕ)
unfolding set_sealed
note_size none size sizes = sizes
note_size (some gen) size sizes = set_sealed gen size sizes

module _ (fs : FileSystem) where
  -- `std::uint64_t oldSize = 0; fs()->fileSize(name, oldSize)`
  unfoldable pub old_size_of : SegmentWriteDisposition → Name → fs.State → ℕ
  old_size_of must_be_new name s = 0
  old_size_of may_overwrite name s =
      let (st, size) = fs.file_size name s in if is_ok st then size else 0

  unfoldable pub write_segment_file_tracked :
      Name → Bytes → SegmentWriteDisposition → Store → fs.State → Status × Store × fs.State
  unfolding old_size_of resize_total note_size
  write_segment_file_tracked name bytes disposition m s =
      let old_size = old_size_of disposition name s in
      let (st, s') = fs.write_file name bytes s in
      let new_size = to_u32 (length bytes) in
      if not (is_ok st) then (st, m, s') else (
        success,
        record m {
          total_on_disk_bytes = resize_total m.total_on_disk_bytes (to_u32 old_size) new_size;
          sealed_segment_bytes = note_size (is_segment_name name) new_size m.sealed_segment_bytes;
        },
        s',
      )
