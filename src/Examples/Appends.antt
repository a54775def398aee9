-- ===== src/Examples/Appends.antt =====
-- A store on the file system in memory: a record is committed and popped, and the files are mounted.
use pqueue.Base.{
  ℕ, ◌+◌, ◌≤◌, ◌≡◌, refl, sym, ap, ◌∙◌, Bool, true, false, List, [], ◌∷◌, ◌++◌, none, some, arith,
  length, All, append-nil, ltb, none≢some,
}
use pqueue.Bytes.{Bytes}
use pqueue.Status.{success, is_ok}
use pqueue.FileSystem.{FileSystem}
use pqueue.Manifest.{ManifestRange, serialise_manifest}
use pqueue.Manifest.RoundTrip.{IsRange, parse-serialise_manifest}
use pqueue.Manifest.Slots.{
  slot_name, read_manifest, try_read, choose_winning_slot, range_generations,
}
use pqueue.Replay.{apply_found, record_at}
use pqueue.Replay.Contents.{contents}
use pqueue.Replay.Events.{LogEvent, Fits}
use pqueue.Replay.Recovery.{log_size}
use pqueue.Replay.Restore.{Segment, segment_bytes}
use pqueue.Store.{Store, slot_a, slot_b}
use pqueue.Store.Names.{segment_name}
use pqueue.Append.{
  StoreConfig, Outcome, append_range, needs_rotation, make_room, and_then, ensure_active_segment,
  append_enqueue_event_bytes, append_pop_event,
}
use pqueue.Append.Commit.{
  commit_enqueue, commit_pop, rewrite_record, over_total, needed_bytes, append_growth_bytes,
  inactive_slot_bytes, pop_front,
}
use pqueue.Append.Mount.{ensure_mounted}
use pqueue.Append.Live.{file_at, IsOnDisk, replay_of, length-segment_bytes}
use pqueue.Append.Written.{slot_name-segment_name}
use pqueue.Append.Commits.{IsConfig, IsLogged, IsGrown, HasNumbers}
use pqueue.Append.Interface.{
  IsCalm, Commits, commit_enqueue-IsGrown, commit_pop-IsGrown, rewrite_record-IsGrown,
}
use pqueue.Append.Served.{commit_enqueue-contents, commit_pop-contents}
use pqueue.Append.Ranges.{range_generations-append_range}
use pqueue.Examples.Memory.{
  Files, memory, memory-FileSystemLaws, memory-AppendLaws, name_eq_refl, name_eq_differ,
}
use pqueue.Examples.Slots.{first_manifest, first_manifest-IsManifest}

abbrev pub config : StoreConfig
config = record {
  max_segment_bytes = 4096;
  max_total_bytes = 0x2_0000;
  min_free_bytes = 0x8000;
  drain_reserve_bytes = 0;
  idle_compaction_target_segments = 16;
  max_output_segments = 8;
  max_record_bytes = 4096;
}

config-IsConfig : IsConfig config
config-IsConfig = record { segment_cap = omega arith; record_cap = omega arith }

abbrev pub ratios : ℕ × ℕ → ℕ × ℕ → Bool
ratios (a, b) (c, d) = ltb c a

abbrev pub fs : FileSystem
fs = memory false

-- One segment that holds the events, and the manifest that names it.
abbrev tail : List LogEvent → Segment
tail es = record { generation = 1; start_seq = 0; events = es }

abbrev pub disk : List LogEvent → Files
disk es =
    (segment_name 1, segment_bytes (tail es))
    ∷ (slot_name slot_a, serialise_manifest first_manifest)
    ∷ []

abbrev pub start : List LogEvent → Store
start es = record {
  mounted = true;
  active_generation = 1;
  active_segment_bytes = 20 + log_size es;
  total_on_disk_bytes = 50 + log_size es;
  next_generation = 2;
  sealed_segment_bytes = (1, 20) ∷ [];
  cached_written_slot = none;
  cached_written_epoch = 0;
  manifest_bytes_a = 30;
  manifest_bytes_b = 0;
  active_generations = 1 ∷ [];
  manifest_ranges = [];
  records = (replay_of [] (tail es)).records;
  tail_dependencies_tracked = true;
  tail_affected = (replay_of [] (tail es)).tail_affected;
  next_sequence = 0;
}

module _ (es : List LogEvent) (fit : All (Fits 4096) es) (short : log_size es ≤ 2000) where
  file_there : fs.read_file (segment_name 1) (disk es) ≡ (success, segment_bytes (tail es))
  file_there = rw (name_eq_refl (segment_name 1)) refl

  tail-IsOnDisk : IsOnDisk fs 4096 (disk es) (tail es)
  tail-IsOnDisk = record {
    can_read = ap (λ r. is_ok r.0) file_there;
    holds = record {
      stored = ap (λ r. r.1) file_there ∙ sym (append-nil (segment_bytes (tail es)));
      fit = fit;
      generation_small = omega arith;
      start_small = omega arith;
      readable =
          omega (
            arith,
            short,
            ap (λ r. length r.1) file_there,
            length-segment_bytes 4096 (tail es) fit,
          );
    };
  }

  manifest_seen : read_manifest fs (disk es) ≡ some first_manifest
  unfolding read_manifest try_read choose_winning_slot
  manifest_seen =
      rw
        (
          name_eq_differ (segment_name 1) (slot_name slot_a)
              (λ e. slot_name-segment_name slot_a 1 (sym e)),
          name_eq_differ (segment_name 1) (slot_name slot_b)
              (λ e. slot_name-segment_name slot_b 1 (sym e)),
        )
        (rw (parse-serialise_manifest first_manifest first_manifest-IsManifest) refl)

  start-IsLogged :
      IsLogged fs
        (memory-FileSystemLaws false)
        (memory-AppendLaws false)
        4096
        (start es)
        (disk es)
        (es ++ [])
  unfolding range_generations
  start-IsLogged = record {
    sealed = [];
    active = tail es;
    live = record {
      sealed_stored = tt;
      active_stored = tail-IsOnDisk;
      apart = tt;
      mounted = refl;
      tail_is = refl;
      bytes_are = refl;
      records_are = refl;
      tracked = refl;
      affected_are = refl;
    };
    named = record {
      md = first_manifest;
      seen = manifest_seen;
      cache = λ slot e. absurd (none≢some e);
      md_ranges = refl;
      md_tail = refl;
      names = refl;
      generations_are = refl;
      are_ranges = tt;
      few = omega arith;
      below = tt;
      tail_below = omega arith;
      tail_pos = omega arith;
    };
    events_are = refl;
  }

  start-HasNumbers :
      HasNumbers fs
        (memory-FileSystemLaws false)
        (memory-AppendLaws false)
        4096
        (start es)
        (disk es)
        (es ++ [])
        start-IsLogged
  unfolding start-IsLogged
  start-HasNumbers = record { epoch_left = omega arith; generation_left = omega arith }

abbrev payload : Bytes
payload = 7 ∷ 8 ∷ 9 ∷ []

abbrev pub one : List LogEvent
one = LogEvent.enqueue 0 payload ∷ []

one_fit : All (Fits 4096) one
one_fit = ((omega arith, omega arith, omega arith), tt)

one_short : log_size one ≤ 2000
one_short = omega arith

one-IsCalm :
    IsCalm fs
      (memory-FileSystemLaws false)
      (memory-AppendLaws false)
      ratios
      config
      config-IsConfig
      3
      (start one)
      (disk one)
unfolding over_total needed_bytes append_growth_bytes needs_rotation inactive_slot_bytes
one-IsCalm = record { total_left = refl; free_left = refl }

commit_enqueue-IsGrown_example :
    Commits fs
      (memory-FileSystemLaws false)
      (memory-AppendLaws false)
      ratios
      config
      config-IsConfig
      (start one)
      (disk one)
      one
      (start-IsLogged one one_fit one_short)
      (start-HasNumbers one one_fit one_short)
      (commit_enqueue fs ratios config 0 1 payload (start one) (disk one))
      1
      (LogEvent.enqueue 1 payload)
commit_enqueue-IsGrown_example =
    commit_enqueue-IsGrown fs (memory-FileSystemLaws false) (memory-AppendLaws false) ratios config
      config-IsConfig (start one) (disk one) one (start-IsLogged one one_fit one_short)
      (start-HasNumbers one one_fit one_short) 0 1 payload (omega arith) one-IsCalm

rewrite_record-IsGrown_example :
    Commits fs
      (memory-FileSystemLaws false)
      (memory-AppendLaws false)
      ratios
      config
      config-IsConfig
      (start one)
      (disk one)
      one
      (start-IsLogged one one_fit one_short)
      (start-HasNumbers one one_fit one_short)
      (rewrite_record fs ratios config 0 0 payload (start one) (disk one))
      0
      (LogEvent.rewrite 0 payload)
rewrite_record-IsGrown_example =
    rewrite_record-IsGrown fs (memory-FileSystemLaws false) (memory-AppendLaws false) ratios config
      config-IsConfig (start one) (disk one) one (start-IsLogged one one_fit one_short)
      (start-HasNumbers one one_fit one_short) 0 0 payload (omega arith) one-IsCalm

pop_ok : is_ok (commit_pop fs ratios config 0 (start one) (disk one)).0 ≡ true
unfolding commit_pop pop_front append_pop_event make_room needs_rotation and_then
    ensure_active_segment append_enqueue_event_bytes ensure_mounted apply_found record_at
pop_ok = rw (name_eq_refl (segment_name 1)) refl

commit_pop-IsGrown_example :
    let p = commit_pop fs ratios config 0 (start one) (disk one) in
    IsGrown fs
      (memory-FileSystemLaws false)
      (memory-AppendLaws false)
      config
      0
      (start one)
      (disk one)
      one
      (LogEvent.pop 0)
      p
commit_pop-IsGrown_example =
    commit_pop-IsGrown fs (memory-FileSystemLaws false) (memory-AppendLaws false) ratios config
      config-IsConfig (start one) (disk one) one (start-IsLogged one one_fit one_short)
      (start-HasNumbers one one_fit one_short) 0 (omega arith) pop_ok

commit_enqueue-contents_example :
    (r : Outcome fs) × (commit_enqueue fs ratios config 0 1 payload (start one) (disk one) ≡ some r)
    × (is_ok r.0 ≡ true
        → contents (file_at fs r.2) r.1.records
          ≡ contents (file_at fs (disk one)) (start one).records ++ ((1, payload) ∷ []))
commit_enqueue-contents_example =
    commit_enqueue-contents fs (memory-FileSystemLaws false) (memory-AppendLaws false) ratios config
      config-IsConfig (start one) (disk one) one (start-IsLogged one one_fit one_short)
      (start-HasNumbers one one_fit one_short) 0 1 payload (omega arith) one-IsCalm

commit_pop-contents_example :
    let p = commit_pop fs ratios config 0 (start one) (disk one) in
    (front : Bytes) × (contents (file_at fs (disk one)) (start one).records
      ≡ (0, front) ∷ contents (file_at fs p.2) p.1.records)
commit_pop-contents_example =
    commit_pop-contents fs (memory-FileSystemLaws false) (memory-AppendLaws false) ratios config
      config-IsConfig (start one) (disk one) one (start-IsLogged one one_fit one_short)
      (start-HasNumbers one one_fit one_short) 0 (omega arith) pop_ok

abbrev two_ranges : List ManifestRange
two_ranges = record { start_gen = 7; end_gen = 8 } ∷ record { start_gen = 2; end_gen = 4 } ∷ []

two_ranges-IsRange : All IsRange two_ranges
two_ranges-IsRange = (
  record { start_pos = omega arith; ordered = omega arith; end_small = omega arith },
  (record { start_pos = omega arith; ordered = omega arith; end_small = omega arith }, tt),
)

range_generations-append_range_example :
    range_generations (append_range two_ranges 5) ≡ range_generations two_ranges ++ (5 ∷ [])
range_generations-append_range_example =
    range_generations-append_range two_ranges 5 two_ranges-IsRange (omega arith)
