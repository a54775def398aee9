-- ===== src/Append/Commits.antt =====
-- The commits of AppendLogStore, src/pqueue/append_log_store/store.cpp, and the log that the store
-- has written: what each commit does to it.
use pqueue.Base.{
  subst, inl, inr, ◌⊎◌, ◌==◌, Bool-cases, refl, ℕ, ◌+◌, ◌^◌, ◌≤◌, ◌<◌, ◌≡◌, sym, ap, ◌∙◌, Bool,
  true, false, List, [], ◌∷◌, ◌++◌, arith, length, append_assoc,
}
use pqueue.Bytes.{Bytes, IsU32}
use pqueue.LogFormat.{to_u32, enqueue_overhead_bytes}
use pqueue.Status.{is_ok}
use pqueue.FileSystem.{FileSystem, FileSystemLaws, AppendLaws}
use pqueue.Replay.Segments.{max_replay_segment_read_bytes}
use pqueue.Replay.Events.{LogEvent, event_bytes}
use pqueue.Replay.Torn.{event_size}
use pqueue.Replay.Restore.{Segment, events_of}
use pqueue.Store.{Store, Slot}
use pqueue.Store.Names.{segment_name}
use pqueue.Manifest.Slots.{slot_name, range_generations}
use pqueue.Append.Written.{slot_name-segment_name, CacheAgrees-kept}
use pqueue.Append.{
  StoreConfig, Outcome, needs_rotation, ensure_active_segment, and_then, make_room,
  append_enqueue_record,
}
use pqueue.Append.Commit.{too_large, write_enqueue}
use pqueue.Append.Live.{with_event}
use pqueue.Append.Durable.{and_then-ok, IsLive}
use pqueue.Append.Tail.{IsAppended, append_enqueue_record-IsAppended}
use pqueue.Append.Sealed.{events_of-append}
use pqueue.Append.Rotate.{IsNamed}
use pqueue.Append.Room.{HasRoom, make_room-HasRoom}

-- A configuration under which what is written can be read back: the mount reads segments of at most
-- 256 KiB, and sizes of events fit 32 bits.
pub record IsConfig (config : StoreConfig) : Type 0 where
  pub segment_cap : config.max_segment_bytes ≤ max_replay_segment_read_bytes
  pub record_cap : config.max_record_bytes + 24 < 2 ^ 32

module _ (fs : FileSystem) (laws : FileSystemLaws fs) (appends : AppendLaws fs) where
  -- The store has written the events, into segments that the manifest names, and the fields for
  -- records, tail, tracked generations, ranges, active generations and the manifest's cache agree
  -- with them. The byte total and the sequence counter are not of it.
  pub record IsLogged (max : ℕ) (m : Store) (s : fs.State) (events : List LogEvent) : Type 0 where
    pub sealed : List Segment
    pub active : Segment
    pub live : IsLive fs max m s sealed active
    pub named : IsNamed fs laws m s sealed active
    pub events_are : events_of (sealed ++ (active ∷ [])) ≡ events

  -- The log has one more event. The byte total is the one behind the room that was made, which
  -- is the one before unless the tail was sealed, and the event's bytes; the sequence counter is as
  -- it was.
  pub record IsGrown (config : StoreConfig) (base : ℕ) (m : Store) (s : fs.State)
      (events : List LogEvent) (e : LogEvent) (r : Outcome fs) : Type 0 where
    pub logged : IsLogged config.max_record_bytes r.1 r.2 (events ++ (e ∷ []))
    pub same_sequence : r.1.next_sequence ≡ m.next_sequence
    pub total_is :
        r.1.total_on_disk_bytes
        ≡ to_u32
            ((make_room fs config (event_size e) base m s).1.total_on_disk_bytes + event_size e)
    pub total_kept :
        (needs_rotation config (event_size e) m ≡ true)
        ⊎ ((make_room fs config (event_size e) base m s).1.total_on_disk_bytes
            ≡ m.total_on_disk_bytes)

  -- The counters of manifests and of generations do not wrap with the next segment.
  pub record HasNumbers (max : ℕ) (m : Store) (s : fs.State) (events : List LogEvent)
      (l : IsLogged max m s events) : Type 0 where
    pub epoch_left : l.named.md.epoch + 1 < 2 ^ 32
    pub generation_left : m.next_generation + 1 < 2 ^ 32

  -- An append leaves the manifest alone.
  IsNamed-appended :
      (max : ℕ) (m : Store) (s : fs.State) (sealed : List Segment) (active : Segment)
      (h : IsLive fs max m s sealed active) (e : LogEvent) (r : Outcome fs)
      → IsNamed fs laws m s sealed active
      → IsAppended fs appends max m s sealed active h e r
      → IsNamed fs laws r.1 r.2 sealed (with_event active e)
  IsNamed-appended max m s sealed active h e r n a =
      let kept : (slot : Slot)
          → fs.read_file (slot_name slot) r.2 ≡ fs.read_file (slot_name slot) s =
        λ slot. rw a.state (
          appends.read_beside (segment_name m.active_generation) (slot_name slot)
            m.active_segment_bytes (event_bytes e) s
            (λ d. slot_name-segment_name slot m.active_generation (sym d))) in
      let (cache, manifest) =
        CacheAgrees-kept fs laws m r.1 s r.2 kept a.same_slot a.same_epoch n.cache in
      record {
        md = n.md;
        seen = manifest ∙ n.seen;
        cache = cache;
        md_ranges = n.md_ranges ∙ sym a.same_ranges;
        md_tail = n.md_tail;
        names = ap range_generations a.same_ranges ∙ n.names;
        generations_are =
            a.same_generations
            ∙ n.generations_are
            ∙ ap (λ t. range_generations t ++ (active.generation ∷ [])) (sym a.same_ranges);
        are_ranges = rw a.same_ranges n.are_ranges;
        few = rw a.same_ranges n.few;
        below = rw a.same_next n.below;
        tail_below = rw a.same_next n.tail_below;
        tail_pos = n.tail_pos;
      }

  module _ (exceeds : ℕ × ℕ → ℕ × ℕ → Bool) (config : StoreConfig) (c : IsConfig config) (m : Store)
      (s : fs.State) (events : List LogEvent) (l : IsLogged config.max_record_bytes m s events)
      (k : HasNumbers config.max_record_bytes m s events l) where
    abbrev pub max : ℕ
    max = config.max_record_bytes

    abbrev pub roomy : ℕ → ℕ → Outcome fs
    roomy size base = make_room fs config size base m s

    pub made_room :
        (size base : ℕ)
        → 20 + size ≤ max_replay_segment_read_bytes
        → is_ok (roomy size base).0 ≡ true
        → HasRoom fs laws max size m l.sealed l.active (roomy size base)
    made_room size base fits ok =
        make_room-HasRoom fs laws max m s l.sealed l.active l.live l.named k.epoch_left
          k.generation_left size fits config c.segment_cap base ok

    with_events :
        (sealed : List Segment) (active : Segment) (e : LogEvent)
        → events_of (sealed ++ (active ∷ [])) ≡ events_of (l.sealed ++ (l.active ∷ []))
        → events_of (sealed ++ (with_event active e ∷ [])) ≡ events ++ (e ∷ [])
    with_events sealed active e same =
        events_of-append sealed (with_event active e)
        ∙ sym (append_assoc (events_of sealed) active.events (e ∷ []))
        ∙ ap (λ t. t ++ (e ∷ [])) (sym (events_of-append sealed active) ∙ same ∙ l.events_are)

    -- Where the tail is not sealed, room is made without a change of the byte total.
    roomy-total :
        (size base : ℕ)
        → (needs_rotation config size m ≡ true)
          ⊎ ((roomy size base).1.total_on_disk_bytes ≡ m.total_on_disk_bytes)
    unfolding make_room ensure_active_segment and_then
    roomy-total size base =
        let there : (m.active_segment_bytes == 0) ≡ false = ground (arith, l.live.bytes_are) in
        elim (Bool-cases (needs_rotation config size m)) [
          | inl e ↦ inl e
          | inr e ↦ inr (rw (e, there) refl)
        ]

    -- What a step behind the room makes of the log, if it appends the event.
    pub logged_by :
        (size base : ℕ) (room : HasRoom fs laws max size m l.sealed l.active (roomy size base))
        (e : LogEvent) (r : Outcome fs)
        → size ≡ event_size e
        → IsAppended fs appends max
            (roomy size base).1
            (roomy size base).2
            room.sealed_now
            room.active_now
            room.live
            e
            r
        → IsGrown config base m s events e r
    logged_by size base room e r sized a = record {
      same_sequence = a.same_sequence ∙ room.same_sequence;
      total_is =
          a.total_is ∙ ap (λ n. to_u32 ((roomy n base).1.total_on_disk_bytes + event_size e)) sized;
      total_kept =
          subst
            (λ n.
              (needs_rotation config n m ≡ true)
              ⊎ ((roomy n base).1.total_on_disk_bytes ≡ m.total_on_disk_bytes))
            sized (roomy-total size base);
      logged = record {
        sealed = room.sealed_now;
        active = with_event room.active_now e;
        live = a.live;
        named =
            IsNamed-appended max (roomy size base).1 (roomy size base).2 room.sealed_now
              room.active_now room.live e r room.named a;
        events_are = with_events room.sealed_now room.active_now e room.events;
      };
    }

    module _ (seq : ℕ) (bytes : Bytes) (small : IsU32 seq)
        (fit : too_large config bytes ≡ false) where
      pub size_fits :
          (length bytes ≤ config.max_record_bytes) × (44 + length bytes ≤ config.max_segment_bytes)
      unfolding too_large
      size_fits = ground (arith, fit)

      pub event_length : to_u32 (enqueue_overhead_bytes + to_u32 (length bytes)) ≡ length bytes + 24
      event_length = omega (arith, size_fits, c.segment_cap)

      pub write_enqueue-IsGrown :
          is_ok (write_enqueue fs exceeds config seq bytes m s).0 ≡ true
          → let r = write_enqueue fs exceeds config seq bytes m s in
            IsGrown config seq m s events (LogEvent.enqueue seq bytes) r
      unfolding write_enqueue
      write_enqueue-IsGrown ok =
          let size = to_u32 (enqueue_overhead_bytes + to_u32 (length bytes)) in
          let (ok1, is) = and_then-ok fs (roomy size seq) (append_enqueue_record fs seq bytes) ok in
          let room =
            made_room size seq (omega (arith, event_length, size_fits, c.segment_cap)) ok1 in
          let left = room.room in
          rw is (
            logged_by size seq room (LogEvent.enqueue seq bytes)
              (append_enqueue_record fs seq bytes (roomy size seq).1 (roomy size seq).2)
              event_length
              (append_enqueue_record-IsAppended fs appends max (roomy size seq).1 (roomy size seq).2
                room.sealed_now room.active_now room.live seq bytes
                (small, size_fits.0, c.record_cap) (omega (arith, left, event_length))
                (ap (λ r. is_ok r.0) (sym is) ∙ ok)))
