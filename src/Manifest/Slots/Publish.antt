-- ===== src/Manifest/Slots/Publish.antt =====
-- A publish that succeeds is what the next reader sees; one that is interrupted loses nothing.
use pqueue.Base.{
  ℕ, ◌+◌, ◌^◌, ◌<◌, ◌≡◌, ◌≢◌, refl, sym, ap, ◌∙◌, ◌⊎◌, inl, inr, true, Option, none, some, arith,
  Bool-cases, get_or, some-inj, none≢some, subst,
}
use pqueue.Bytes.{Bytes}
use pqueue.LogFormat.{to_u32}
use pqueue.Status.{Status, is_ok}
use pqueue.FileSystem.{FileSystem, FileSystemLaws}
use pqueue.Manifest.{ManifestData, serialise_manifest}
use pqueue.Manifest.RoundTrip.{IsManifest, parse-serialise_manifest}
use pqueue.Store.{Store, Slot, slot_a, slot_b}
use pqueue.Store.Tracked.{write_segment_file_tracked}
use pqueue.Manifest.Slots.{
  slot_name, other_slot, choose_inactive_slot, choose_winning_slot, file_exists, try_read,
  read_manifest, probe, choose_target, with_epoch, epoch_or_zero, finish_publish, publish_to,
  remember_slot, apply_manifest_to_ram, publish_manifest,
}
use pqueue.Manifest.Slots.Election.{
  election, election-newer, election-none, IsInactive, choose_inactive_slot-IsInactive,
  other-IsInactive,
}

pub letters_differ : ◌≢◌ {A = ℕ} 97 98
letters_differ e = omega arith

slot_names_differ : (slot : Slot) → slot_name (other_slot slot) ≢ slot_name slot
slot_names_differ slot_a = λ e. absurd (letters_differ (sym (ap (λ t. get_or t 9 0) e)))
slot_names_differ slot_b = λ e. absurd (letters_differ (ap (λ t. get_or t 9 0) e))

-- The manifest that is written where the winning one has an epoch.
abbrev pub numbered : ManifestData → ℕ → ManifestData
numbered manifest epoch = record manifest { epoch = epoch + 1 }

to_u32-small : (n : ℕ) → n < 2 ^ 32 → to_u32 n ≡ n
to_u32-small n h = omega arith

module _ (fs : FileSystem) (laws : FileSystemLaws fs) where
  -- A slot is read through its file only.
  pub read_manifest-election :
      (slot : Slot) (s : fs.State)
      → read_manifest fs s ≡ election slot (try_read fs slot s) (try_read fs (other_slot slot) s)
  unfolding read_manifest
  read_manifest-election slot_a s = refl
  read_manifest-election slot_b s = refl

  probe-try_read : (slot : Slot) (s : fs.State) → probe fs slot s ≡ try_read fs slot s
  unfolding probe
  probe-try_read slot s = elim (Bool-cases (is_ok (fs.read_file (slot_name slot) s).0)) [
    | inl readable ↦ rw (laws.size_of_readable (slot_name slot) s readable) refl
    | inr unreadable ↦ elim (Bool-cases (is_ok (fs.file_size (slot_name slot) s).0)) [
      | inl e ↦ rw e refl
      | inr e ↦ rw (e, unreadable) refl
    ]
  ]

  try_read-other :
      (slot : Slot) (bytes : Bytes) (s : fs.State)
      → try_read fs (other_slot slot) (fs.write_file (slot_name slot) bytes s).1
        ≡ try_read fs (other_slot slot) s
  unfolding try_read
  try_read-other slot bytes s =
      rw
        (laws.read_other (slot_name slot) (slot_name (other_slot slot)) bytes s
          (slot_names_differ slot))
        refl

  try_read-written :
      (slot : Slot) (md : ManifestData) (s : fs.State)
      → IsManifest md
      → is_ok (fs.write_file (slot_name slot) (serialise_manifest md) s).0 ≡ true
      → try_read fs slot (fs.write_file (slot_name slot) (serialise_manifest md) s).1 ≡ some md
  unfolding try_read
  try_read-written slot md s h e =
      let (readable, same) = laws.read_written (slot_name slot) (serialise_manifest md) s e in
      rw (readable, same) (parse-serialise_manifest md h)

  -- The cached slot holds the manifest that readers see.
  abbrev pub CacheAgrees : Store → fs.State → Type 0
  CacheAgrees m s =
      (slot : Slot)
      → m.cached_written_slot ≡ some slot
      → (md : ManifestData) × (try_read fs slot s ≡ some md)
        × (md.epoch ≡ m.cached_written_epoch)
        × (read_manifest fs s ≡ some md)

  abbrev pub Inactive : Slot → ℕ → fs.State → Type 0
  Inactive slot epoch s =
      IsInactive slot (try_read fs slot s) (try_read fs (other_slot slot) s) epoch

  slow_path-Inactive :
      (slot : Slot) (s : fs.State)
      → choose_inactive_slot
          (file_exists fs slot_a s)
          (try_read fs slot_a s)
          (file_exists fs slot_b s)
          (try_read fs slot_b s)
        ≡ some slot
      → Inactive slot
          (epoch_or_zero (choose_winning_slot (try_read fs slot_a s) (try_read fs slot_b s)))
          s
  slow_path-Inactive slot_a s e =
      choose_inactive_slot-IsInactive (file_exists fs slot_a s) (try_read fs slot_a s)
        (file_exists fs slot_b s) (try_read fs slot_b s) slot_a e
  slow_path-Inactive slot_b s e =
      choose_inactive_slot-IsInactive (file_exists fs slot_a s) (try_read fs slot_a s)
        (file_exists fs slot_b s) (try_read fs slot_b s) slot_b e

  fast_path-Inactive :
      (slot : Slot) (epoch : ℕ) (s : fs.State)
      → (md : ManifestData) × (try_read fs slot s ≡ some md)
        × (md.epoch ≡ epoch)
        × (read_manifest fs s ≡ some md)
      → Inactive (other_slot slot) epoch s
  fast_path-Inactive slot_a epoch s (md, mine, e, seen) =
      subst (λ k. Inactive slot_b k s) e
        (other-IsInactive slot_b (try_read fs slot_b s) (try_read fs slot_a s) md
          (sym (read_manifest-election slot_b s) ∙ seen) mine)
  fast_path-Inactive slot_b epoch s (md, mine, e, seen) =
      subst (λ k. Inactive slot_a k s) e
        (other-IsInactive slot_a (try_read fs slot_a s) (try_read fs slot_b s) md
          (sym (read_manifest-election slot_a s) ∙ seen) mine)

  with_epoch-some :
      (o : Option Slot) (e e' : ℕ) (slot : Slot)
      → with_epoch o e ≡ some (slot, e')
      → (o ≡ some slot) × (e ≡ e')
  with_epoch-some none e e' slot h = absurd (none≢some h)
  with_epoch-some (some x) e e' slot h =
      (ap some (ap (λ p. p.0) (some-inj h)), ap (λ p. p.1) (some-inj h))

  choose_target-slow :
      (cached_epoch : ℕ) (s : fs.State)
      → choose_target fs none cached_epoch s
        ≡ with_epoch
            (choose_inactive_slot
              (file_exists fs slot_a s)
              (try_read fs slot_a s)
              (file_exists fs slot_b s)
              (try_read fs slot_b s))
            (epoch_or_zero (choose_winning_slot (try_read fs slot_a s) (try_read fs slot_b s)))
  unfolding choose_target
  choose_target-slow cached_epoch s = rw (probe-try_read slot_a s, probe-try_read slot_b s) refl

  pub choose_target-Inactive_of :
      (cached : Option Slot) (cached_epoch : ℕ) (s : fs.State) (slot : Slot) (epoch : ℕ)
      → ((x : Slot)
          → cached ≡ some x
          → (md : ManifestData) × (try_read fs x s ≡ some md)
            × (md.epoch ≡ cached_epoch)
            × (read_manifest fs s ≡ some md))
      → choose_target fs cached cached_epoch s ≡ some (slot, epoch)
      → Inactive slot epoch s
  unfolding choose_target
  choose_target-Inactive_of none cached_epoch s slot epoch agrees e =
      let (chosen, same) =
        with_epoch-some
          (choose_inactive_slot (file_exists fs slot_a s) (try_read fs slot_a s)
            (file_exists fs slot_b s) (try_read fs slot_b s))
          (epoch_or_zero (choose_winning_slot (try_read fs slot_a s) (try_read fs slot_b s))) epoch
          slot (sym (choose_target-slow cached_epoch s) ∙ e) in
      subst (λ k. Inactive slot k s) same (slow_path-Inactive slot s chosen)
  choose_target-Inactive_of (some x) cached_epoch s slot epoch agrees e =
      let (at, same) = with_epoch-some (some (other_slot x)) cached_epoch epoch slot e in
      subst (λ k. Inactive k epoch s) (some-inj at)
        (subst (λ k. Inactive (other_slot x) k s) same
          (fast_path-Inactive x cached_epoch s (agrees x refl)))

  -- What a publish to the slot leaves: the state of the write, and the cache of a success.
  abbrev write_of : Slot → ManifestData → fs.State → Status × fs.State
  write_of slot md s = fs.write_file (slot_name slot) (serialise_manifest md) s

  publish_to-state :
      (manifest : ManifestData) (slot : Slot) (epoch : ℕ) (m : Store) (s : fs.State)
      → epoch + 1 < 2 ^ 32
      → let r = publish_to fs manifest (some (slot, epoch)) m s in
        let w = write_of slot (numbered manifest epoch) s in (r.2 ≡ w.1) × (is_ok r.0 ≡ is_ok w.0)
  unfolding publish_to finish_publish write_segment_file_tracked
  publish_to-state manifest slot epoch m s h =
      rw (to_u32-small (epoch + 1) h)
        (elim (Bool-cases (is_ok (write_of slot (numbered manifest epoch) s).0)) [
          | inl e ↦ rw e (refl, refl)
          | inr e ↦ rw (e, e) (refl, e)
        ])

  publish_to-cache :
      (manifest : ManifestData) (slot : Slot) (epoch : ℕ) (m : Store) (s : fs.State)
      → epoch + 1 < 2 ^ 32
      → is_ok (write_of slot (numbered manifest epoch) s).0 ≡ true
      → let m' = (publish_to fs manifest (some (slot, epoch)) m s).1 in
        (m'.cached_written_slot ≡ some slot) × (m'.cached_written_epoch ≡ epoch + 1)
  unfolding publish_to finish_publish write_segment_file_tracked remember_slot apply_manifest_to_ram
  publish_to-cache manifest slot_a epoch m s h e = rw (to_u32-small (epoch + 1) h, e) (refl, refl)
  publish_to-cache manifest slot_b epoch m s h e = rw (to_u32-small (epoch + 1) h, e) (refl, refl)

  try_read-kept :
      (manifest : ManifestData) (slot : Slot) (epoch : ℕ) (s : fs.State)
      → try_read fs (other_slot slot) (write_of slot (numbered manifest epoch) s).1
        ≡ try_read fs (other_slot slot) s
  try_read-kept manifest slot epoch s =
      try_read-other slot (serialise_manifest (numbered manifest epoch)) s

  -- The manifest with the next epoch wins over the one in the other slot.
  numbered-seen :
      (manifest : ManifestData) (slot : Slot) (epoch : ℕ) (s s' : fs.State)
      → Inactive slot epoch s
      → try_read fs (other_slot slot) s' ≡ try_read fs (other_slot slot) s
      → try_read fs slot s' ≡ some (numbered manifest epoch)
      → read_manifest fs s' ≡ some (numbered manifest epoch)
  numbered-seen manifest slot epoch s s' inactive kept e =
      read_manifest-election slot s'
      ∙ rw e (
          election-newer slot (numbered manifest epoch) (try_read fs (other_slot slot) s')
            (λ o seen. omega (arith, inactive.winning o (sym kept ∙ seen))))

  publish_to-visible :
      (manifest : ManifestData) (m : Store) (s : fs.State) (slot : Slot) (epoch : ℕ)
      → Inactive slot epoch s
      → IsManifest (numbered manifest epoch)
      → is_ok (publish_to fs manifest (some (slot, epoch)) m s).0 ≡ true
      → let r = publish_to fs manifest (some (slot, epoch)) m s in
        (read_manifest fs r.2 ≡ some (numbered manifest epoch)) × CacheAgrees r.1 r.2
  publish_to-visible manifest m s slot epoch inactive h ok =
      let (state, same) = publish_to-state manifest slot epoch m s h.epoch_small in
      let written : is_ok (write_of slot (numbered manifest epoch) s).0 ≡ true = sym same ∙ ok in
      let (at, to) = publish_to-cache manifest slot epoch m s h.epoch_small written in
      let mine = try_read-written slot (numbered manifest epoch) s h written in
      let seen =
        numbered-seen manifest slot epoch s (write_of slot (numbered manifest epoch) s).1 inactive
          (try_read-kept manifest slot epoch s) mine in
      rw state (
        seen,
        λ slot' e.
            let is : slot ≡ slot' = some-inj (sym at ∙ e) in
            (numbered manifest epoch, rw (sym is) mine, sym to, seen),
      )

  -- Where the cache agrees with what readers see: a publish of a manifest that the parser accepts,
  -- if it succeeds, is what a reader finds from then on, with the epoch after the winning one, and
  -- the cache of the store agrees with it.
  pub publish_manifest-visible :
      (manifest : ManifestData) (m : Store) (s : fs.State) (slot : Slot) (epoch : ℕ)
      → CacheAgrees m s
      → choose_target fs m.cached_written_slot m.cached_written_epoch s ≡ some (slot, epoch)
      → IsManifest (numbered manifest epoch)
      → is_ok (publish_manifest fs manifest m s).0 ≡ true
      → let r = publish_manifest fs manifest m s in
        (read_manifest fs r.2 ≡ some (numbered manifest epoch)) × CacheAgrees r.1 r.2
  unfolding publish_manifest
  publish_manifest-visible manifest m s slot epoch agrees target h ok = rw target (
      publish_to-visible manifest m s slot epoch
        (choose_target-Inactive_of m.cached_written_slot m.cached_written_epoch s slot epoch agrees
          target)
        h (rw target at ok))

  publish_manifest-kept :
      (manifest : ManifestData) (m : Store) (s : fs.State) (slot : Slot) (epoch : ℕ)
      → choose_target fs m.cached_written_slot m.cached_written_epoch s ≡ some (slot, epoch)
      → epoch + 1 < 2 ^ 32
      → try_read fs (other_slot slot) (publish_manifest fs manifest m s).2
        ≡ try_read fs (other_slot slot) s
  unfolding publish_manifest
  publish_manifest-kept manifest m s slot epoch target small =
      rw (target, (publish_to-state manifest slot epoch m s small).0)
        (try_read-kept manifest slot epoch s)

  -- Where the cache agrees with what readers see and epochs do not wrap: whatever a publish leaves
  -- in the slot that it writes, nothing that parses, the manifest that was there or the new one,
  -- and whatever status it returns, a reader finds the manifest that it found before or the new
  -- one.
  pub publish_manifest-atomic :
      (manifest : ManifestData) (m : Store) (s : fs.State) (slot : Slot) (epoch : ℕ)
      → CacheAgrees m s
      → choose_target fs m.cached_written_slot m.cached_written_epoch s ≡ some (slot, epoch)
      → epoch + 1 < 2 ^ 32
      → (try_read fs slot (publish_manifest fs manifest m s).2 ≡ none)
        ⊎ (try_read fs slot (publish_manifest fs manifest m s).2 ≡ try_read fs slot s)
        ⊎ (try_read fs slot (publish_manifest fs manifest m s).2 ≡ some (numbered manifest epoch))
      → (read_manifest fs (publish_manifest fs manifest m s).2 ≡ read_manifest fs s)
        ⊎ (read_manifest fs (publish_manifest fs manifest m s).2 ≡ some (numbered manifest epoch))
  publish_manifest-atomic manifest m s slot epoch agrees target small fate =
      let inactive =
        choose_target-Inactive_of m.cached_written_slot m.cached_written_epoch s slot epoch agrees
          target in
      let s' = (publish_manifest fs manifest m s).2 in
      let kept = publish_manifest-kept manifest m s slot epoch target small in
      let before = read_manifest-election slot s ∙ inactive.loses in
      elim fate [
        | inl gone ↦ inl (
            read_manifest-election slot s'
            ∙ rw (gone, kept) (election-none slot (try_read fs (other_slot slot) s) ∙ sym before))
        | inr (inl same) ↦
            inl (
              read_manifest-election slot s'
              ∙ rw (same, kept) (sym (read_manifest-election slot s)))
        | inr (inr new) ↦ inr (numbered-seen manifest slot epoch s s' inactive kept new)
      ]
