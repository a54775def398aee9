-- ===== src/Examples/Slots.antt =====
-- Manifests that are published on the file system in memory.
use pqueue.Base.{◌≡◌, refl, inr, inl, ◌⊎◌, Bool, true, false, [], ◌∷◌, none, some, arith, none≢some}
use pqueue.Bytes.{write_u32, write_u16, u32_bytes, u16_bytes}
use pqueue.Status.{is_ok}
use pqueue.Manifest.{
  ManifestData, ManifestRange, serialise_manifest, parse_manifest, manifest_body, push_ranges,
}
use pqueue.Store.Tracked.{write_segment_file_tracked}
use pqueue.Manifest.RoundTrip.{IsManifest, parse-serialise_manifest}
use pqueue.Manifest.Slots.{
  slot_name, read_manifest, try_read, choose_target, publish_manifest, choose_inactive_slot,
  choose_winning_slot, probe, file_exists, publish_to, finish_publish,
}
use pqueue.Manifest.Slots.Publish.{
  CacheAgrees, numbered, publish_manifest-visible, publish_manifest-atomic,
}
use pqueue.Store.{Store, slot_a, slot_b}
use pqueue.Examples.Memory.{Files, memory, memory-FileSystemLaws}

abbrev pub first_manifest : ManifestData
first_manifest = record { epoch = 1; next_generation = 2; ranges = []; tail_generation = 1 }

abbrev one_range : ManifestRange
one_range = record { start_gen = 1; end_gen = 3 }

abbrev next_manifest : ManifestData
next_manifest = record {
  epoch = 0;
  next_generation = 5;
  ranges = one_range ∷ [];
  tail_generation = 4;
}

abbrev disk : Files
disk = (slot_name slot_a, serialise_manifest first_manifest) ∷ []

abbrev cold : Store
cold = record {
  mounted = true;
  active_generation = 1;
  active_segment_bytes = 20;
  total_on_disk_bytes = 58;
  next_generation = 2;
  sealed_segment_bytes = [];
  cached_written_slot = none;
  cached_written_epoch = 0;
  manifest_bytes_a = 30;
  manifest_bytes_b = 0;
  active_generations = 1 ∷ [];
  manifest_ranges = [];
  records = [];
  tail_dependencies_tracked = true;
  tail_affected = [];
  next_sequence = 0;
}

pub first_manifest-IsManifest : IsManifest first_manifest
first_manifest-IsManifest = record {
  epoch_small = omega arith;
  next_small = omega arith;
  few = omega arith;
  are_ranges = tt;
  tail_small = omega arith;
  has_tail = inr refl;
}

next_manifest-IsManifest : IsManifest (numbered next_manifest 1)
next_manifest-IsManifest = record {
  epoch_small = omega arith;
  next_small = omega arith;
  few = omega arith;
  are_ranges =
      (record { start_pos = omega arith; ordered = omega arith; end_small = omega arith }, tt);
  tail_small = omega arith;
  has_tail = inl (λ e. omega (arith, e));
}

parse-serialise_manifest_example :
    parse_manifest (serialise_manifest (numbered next_manifest 1)) ≡ some (numbered next_manifest 1)
parse-serialise_manifest_example =
    parse-serialise_manifest (numbered next_manifest 1) next_manifest-IsManifest

cold-CacheAgrees :
    (interrupted : Bool)
    → CacheAgrees (memory interrupted) (memory-FileSystemLaws interrupted) cold disk
cold-CacheAgrees interrupted slot e = absurd (none≢some e)

chooses_b : (interrupted : Bool) → choose_target (memory interrupted) none 0 disk ≡ some (slot_b, 1)
unfolding choose_target choose_inactive_slot choose_winning_slot probe file_exists try_read
chooses_b interrupted = rw (parse-serialise_manifest first_manifest first_manifest-IsManifest) refl

publish_succeeds : is_ok (publish_manifest (memory false) next_manifest cold disk).0 ≡ true
unfolding publish_manifest publish_to finish_publish write_segment_file_tracked
publish_succeeds = rw (chooses_b false) refl

slot_is_lost :
    try_read (memory true) slot_b (publish_manifest (memory true) next_manifest cold disk).2 ≡ none
unfolding publish_manifest publish_to finish_publish write_segment_file_tracked try_read
    parse_manifest serialise_manifest manifest_body write_u32 write_u16 u32_bytes u16_bytes
    push_ranges
slot_is_lost = rw (chooses_b true) refl

publish_manifest-visible_example :
    let r = publish_manifest (memory false) next_manifest cold disk in
    (read_manifest (memory false) r.2 ≡ some (numbered next_manifest 1))
    × CacheAgrees (memory false) (memory-FileSystemLaws false) r.1 r.2
publish_manifest-visible_example =
    publish_manifest-visible (memory false) (memory-FileSystemLaws false) next_manifest cold disk
      slot_b 1 (cold-CacheAgrees false) (chooses_b false) next_manifest-IsManifest publish_succeeds

publish_manifest-atomic_example :
    let r = publish_manifest (memory true) next_manifest cold disk in
    (read_manifest (memory true) r.2 ≡ read_manifest (memory true) disk)
    ⊎ (read_manifest (memory true) r.2 ≡ some (numbered next_manifest 1))
publish_manifest-atomic_example =
    publish_manifest-atomic (memory true) (memory-FileSystemLaws true) next_manifest cold disk
      slot_b 1 (cold-CacheAgrees true) (chooses_b true) (omega arith) (inl slot_is_lost)
