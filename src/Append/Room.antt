-- ===== src/Append/Room.antt =====
-- An append that finds room in the tail, or behind the tail that it seals.
use pqueue.Base.{
  ℕ, ◌+◌, ◌^◌, ◌≤◌, ◌<◌, ◌≡◌, refl, sym, ap, ◌∙◌, inl, inr, true, false, List, [], ◌∷◌, ◌++◌, arith,
  length, Bool-cases, true≢false, ltb, ◌==◌, if◌then◌else◌, not_ltb→le, append-nil,
}
use pqueue.LogFormat.{to_u32}
use pqueue.Status.{StatusCode, success, failure, is_ok}
use pqueue.FileSystem.{FileSystem, FileSystemLaws}
use pqueue.Manifest.{ManifestRange, manifest_max_ranges}
use pqueue.Replay.Segments.{max_replay_segment_read_bytes}
use pqueue.Replay.Events.{LogEvent}
use pqueue.Replay.Recovery.{log_size}
use pqueue.Replay.Restore.{Segment, events_of}
use pqueue.Store.{Store}
use pqueue.Store.Tracked.{set_sealed}
use pqueue.Append.{
  StoreConfig, Outcome, append_range, sealed_ranges, next_base, needs_rotation, install_tail,
  rotate_segment, ensure_active_segment, make_room,
}
use pqueue.Append.Live.{length-file_at}
use pqueue.Append.Durable.{and_then-ok, IsLive}
use pqueue.Append.Ranges.{append_range-IsRange}
use pqueue.Append.Sealed.{events_of-append}
use pqueue.Append.Install.{install_tail-IsInstalled}
use pqueue.Append.Rotate.{
  IsNamed, next_segment, active_pos, active_small, next_pos, sealed-IsLive, sealed-IsNamed,
}

log_size-empty : (es : List LogEvent) → 20 + log_size es ≤ 20 → log_size es ≡ 0
log_size-empty es h = omega (arith, h)

module _ (fs : FileSystem) (laws : FileSystemLaws fs) where
  -- The log behind a step that made room for `size` bytes.
  pub record HasRoom (max size : ℕ) (m : Store) (sealed : List Segment) (active : Segment)
      (r : Outcome fs) : Type 0 where
    pub sealed_now : List Segment
    pub active_now : Segment
    pub live : IsLive fs max r.1 r.2 sealed_now active_now
    pub named : IsNamed fs laws r.1 r.2 sealed_now active_now
    pub events : events_of (sealed_now ++ (active_now ∷ [])) ≡ events_of (sealed ++ (active ∷ []))
    pub same_records : r.1.records ≡ m.records
    pub same_sequence : r.1.next_sequence ≡ m.next_sequence
    pub room : 20 + log_size active_now.events + size ≤ max_replay_segment_read_bytes

  module _ (max : ℕ) (m : Store) (s : fs.State) (sealed : List Segment) (active : Segment)
      (h : IsLive fs max m s sealed active) (n : IsNamed fs laws m s sealed active)
      (epochs : n.md.epoch + 1 < 2 ^ 32) (nexts : m.next_generation + 1 < 2 ^ 32) (size : ℕ)
      (fits : 20 + size ≤ max_replay_segment_read_bytes) where
    abbrev sealing : Store
    sealing = record m {
      sealed_segment_bytes =
          set_sealed m.active_generation m.active_segment_bytes m.sealed_segment_bytes;
    }

    abbrev new_ranges : List ManifestRange
    new_ranges = append_range m.manifest_ranges m.active_generation

    abbrev installed : Outcome fs
    installed = install_tail fs new_ranges m.next_generation (next_base m.records) sealing s

    not_zero : (m.active_generation == 0) ≡ false
    not_zero = ground (arith, active_pos fs laws max m s sealed active h n epochs nexts)

    rotate_segment-shape : rotate_segment fs m s ≡ (
        if ltb manifest_max_ranges (length new_ranges)
        then (failure StatusCode.range_limit_exceeded, m, s)
        else install_tail fs new_ranges m.next_generation (next_base m.records) sealing s)
    unfolding rotate_segment sealed_ranges
    rotate_segment-shape = rw not_zero refl

    rotate_segment-HasRoom :
        is_ok (rotate_segment fs m s).0 ≡ true
        → HasRoom max size m sealed active (rotate_segment fs m s)
    rotate_segment-HasRoom ok = elim (Bool-cases (ltb manifest_max_ranges (length new_ranges))) [
      | inl full ↦
          let is : rotate_segment fs m s ≡ (failure StatusCode.range_limit_exceeded, m, s) =
            rw full at rotate_segment-shape in
          absurd (true≢false (sym ok ∙ ap (λ r. is_ok r.0) is))
      | inr few ↦
          let is : rotate_segment fs m s ≡ installed = rw few at rotate_segment-shape in
          let i =
            install_tail-IsInstalled fs laws new_ranges m.next_generation (next_base m.records)
              sealing s n.md n.cache n.seen epochs
              (not_ltb→le manifest_max_ranges (length new_ranges) few)
              (append_range-IsRange m.manifest_ranges m.active_generation n.are_ranges
                (active_pos fs laws max m s sealed active h n epochs nexts)
                (active_small fs laws max m s sealed active h n epochs nexts))
              (next_pos fs laws max m s sealed active h n epochs nexts) nexts
              (ap (λ r. is_ok r.0) (sym is) ∙ ok) in
          rw is (record {
            sealed_now = sealed ++ (active ∷ []);
            active_now = next_segment fs laws max m s sealed active h n epochs nexts;
            live =
                sealed-IsLive fs laws max m s sealed active h n epochs nexts sealing _ refl refl i;
            named =
                sealed-IsNamed fs laws max m s sealed active h n epochs nexts sealing _
                  (not_ltb→le manifest_max_ranges (length new_ranges) few) i;
            events = events_of-append (sealed ++ (active ∷ [])) _ ∙ append-nil _;
            same_records = i.same_records;
            same_sequence = i.same_sequence;
            room = omega (arith, fits);
          })
    ]

    ensured :
        (base : ℕ) (r : Outcome fs)
        → HasRoom max size m sealed active r
        → HasRoom max size m sealed active (ensure_active_segment fs base r.1 r.2)
    unfolding ensure_active_segment
    ensured base (st, m', s') k =
        let there : (m'.active_segment_bytes == 0) ≡ false = ground (arith, k.live.bytes_are) in
        rw there (record {
          sealed_now = k.sealed_now;
          active_now = k.active_now;
          live = k.live;
          named = k.named;
          events = k.events;
          same_records = k.same_records;
          same_sequence = k.same_sequence;
          room = k.room;
        })

    module _ (config : StoreConfig)
        (cap : config.max_segment_bytes ≤ max_replay_segment_read_bytes) where
      -- A tail that is not sealed has room.
      room_left :
          needs_rotation config size m ≡ false
          → 20 + log_size active.events + size ≤ max_replay_segment_read_bytes
      unfolding needs_rotation
      room_left e =
          let bytes = h.bytes_are in
          let short = h.active_stored.holds.readable in
          let long = length-file_at fs max s active h.active_stored in
          elim (Bool-cases (ltb 20 m.active_segment_bytes)) [
            | inl some_events ↦
                let under =
                  not_ltb→le config.max_segment_bytes (to_u32 (m.active_segment_bytes + size))
                    (rw some_events at e) in
                omega (arith, under, bytes, short, long, fits, cap)
            | inr no_events ↦
                let under = not_ltb→le 20 m.active_segment_bytes no_events in
                omega (arith, under, bytes, fits)
          ]

      first_step-HasRoom :
          (let r =
              if needs_rotation config size m then rotate_segment fs m s else (success, m, s) in
            is_ok r.0 ≡ true → HasRoom max size m sealed active r)
      first_step-HasRoom = elim (Bool-cases (needs_rotation config size m)) [
        | inl e ↦ rw e rotate_segment-HasRoom
        | inr e ↦ rw e (λ ok. record {
          sealed_now = sealed;
          active_now = active;
          live = h;
          named = n;
          events = refl;
          same_records = refl;
          same_sequence = refl;
          room = room_left e;
        })
      ]

      pub make_room-HasRoom :
          (base : ℕ)
          → is_ok (make_room fs config size base m s).0 ≡ true
          → HasRoom max size m sealed active (make_room fs config size base m s)
      unfolding make_room
      make_room-HasRoom base ok =
          let first : Outcome fs =
            if needs_rotation config size m then rotate_segment fs m s else (success, m, s) in
          let (ok1, is) = and_then-ok fs first (ensure_active_segment fs base) ok in
          rw is (ensured base first (first_step-HasRoom ok1))
