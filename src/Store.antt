-- ===== src/Store.antt =====
-- The state of AppendLogStore in memory, src/pqueue/append_log_store.h, and the helpers on file
-- names and tracked writes of src/pqueue/append_log_store/store.cpp. The mutable buffer positions
-- and sizes are 32-bit numbers.
pub mod Names
pub mod NameLaws
pub mod Tracked
use pqueue.Base.{ℕ, Bool, List, Option}
use pqueue.Manifest.{ManifestRange}
use pqueue.Replay.{SegmentRecord}

pub data Slot : Type 0 where
  slot_a slot_b : Slot

-- `sealedSegmentBytes_` is an association list, the latest entry first.
pub record Store : Type 0 where
  pub mounted : Bool
  pub active_generation : ℕ
  pub active_segment_bytes : ℕ
  pub total_on_disk_bytes : ℕ
  pub next_generation : ℕ
  pub sealed_segment_bytes : List (ℕ × ℕ)
  pub cached_written_slot : Option Slot
  pub cached_written_epoch : ℕ
  pub manifest_bytes_a : ℕ
  pub manifest_bytes_b : ℕ
  pub active_generations : List ℕ
  pub manifest_ranges : List ManifestRange
  pub records : List SegmentRecord
  pub tail_dependencies_tracked : Bool
  pub tail_affected : List ℕ
  pub next_sequence : ℕ
