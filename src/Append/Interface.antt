-- ===== src/Append/Interface.antt =====
-- The operations of the store that the queue calls, src/pqueue/append_log_store/store.cpp, where the
-- limits on the size of the log do not call for a compaction.
use pqueue.Base.{
  ℕ, zero, suc, ◌+◌, ◌-◌, ◌^◌, ◌≡◌, refl, sym, ap, ◌∙◌, inl, inr, Bool, true, false, ◌&&◌, List, [],
  ◌∷◌, Option, none, some, arith, length, Bool-cases, true≢false, ltb, ◌==◌,
}
use pqueue.Bytes.{Bytes, IsU32}
use pqueue.LogFormat.{to_u32, enqueue_overhead_bytes, serialize_pop_event}
use pqueue.Status.{StatusCode, success, failure, is_ok}
use pqueue.FileSystem.{FileSystem, FileSystemLaws, AppendLaws}
use pqueue.Replay.{SegmentRecord, find_generation}
use pqueue.Replay.Events.{LogEvent}
use pqueue.Store.{Store}
use pqueue.Append.{
  StoreConfig, Outcome, and_then, append_rewrite_record, append_enqueue_event_bytes,
  append_pop_event, append_rewrite_found, append_rewrite_event,
}
use pqueue.Append.Mount.{ensure_mounted}
use pqueue.Append.Commit.{
  over_total, needed_bytes, too_large, compact_while, and_next, relieve_total, relieve_free, admit,
  write_enqueue, enqueue_mounted, commit_enqueue, rewrite_mounted, rewrite_record, pop_front,
  commit_pop, popped,
}
use pqueue.Append.Durable.{and_then-ok}
use pqueue.Append.Tail.{append_rewrite_record-IsAppended, append_pop_record-IsAppended}
use pqueue.Append.Commits.{
  IsConfig, IsLogged, IsGrown, HasNumbers, roomy, made_room, logged_by, size_fits, event_length,
  write_enqueue-IsGrown,
}

module _ (fs : FileSystem) (laws : FileSystemLaws fs) (appends : AppendLaws fs)
    (exceeds : ℕ × ℕ → ℕ × ℕ → Bool) (config : StoreConfig) (c : IsConfig config) where
  -- The limits leave room for a record without a compaction.
  pub record IsCalm (size : ℕ) (m : Store) (s : fs.State) : Type 0 where
    pub total_left : (ltb 0 config.max_total_bytes && over_total config size m) ≡ false
    pub free_left :
        (ltb 0 config.min_free_bytes && ltb (fs.free_bytes s) (needed_bytes config size m)) ≡ false

  compact_while-calm :
      (pressure : Store → fs.State → Bool) (n : ℕ) (m : Store) (s : fs.State)
      → pressure m s ≡ false
      → compact_while fs exceeds config pressure n m s ≡ some (success, m, s)
  unfolding compact_while
  compact_while-calm pressure zero m s e = rw e refl
  compact_while-calm pressure (suc n) m s e = rw e refl

  relieve_total-IsCalm :
      (fuel size : ℕ) (m : Store) (s : fs.State)
      → IsCalm size m s
      → relieve_total fs exceeds config fuel size m s ≡ some (success, m, s)
  unfolding relieve_total
  relieve_total-IsCalm fuel size m s calm = elim (Bool-cases (ltb 0 config.max_total_bytes)) [
    | inl e ↦
        rw e (
          compact_while-calm (λ m' s'. over_total config size m') fuel m s
            (rw e at calm.total_left))
    | inr e ↦ rw e refl
  ]

  relieve_free-IsCalm :
      (fuel size : ℕ) (m : Store) (s : fs.State)
      → IsCalm size m s
      → relieve_free fs exceeds config fuel size m s ≡ some (success, m, s)
  unfolding relieve_free
  relieve_free-IsCalm fuel size m s calm = elim (Bool-cases (ltb 0 config.min_free_bytes)) [
    | inl e ↦ rw e (
        compact_while-calm (λ m' s'. ltb (fs.free_bytes s') (needed_bytes config size m)) fuel m s
          (rw e at calm.free_left))
    | inr e ↦ rw e refl
  ]

  admit-IsCalm :
      (fuel size : ℕ) (m : Store) (s : fs.State)
      → IsCalm size m s
      → admit fs exceeds config fuel size m s ≡ some (success, m, s)
  unfolding admit and_next
  admit-IsCalm fuel size m s calm =
      rw (relieve_total-IsCalm fuel size m s calm) (relieve_free-IsCalm fuel size m s calm)

  module _ (m : Store) (s : fs.State) (events : List LogEvent)
      (l : IsLogged fs laws appends config.max_record_bytes m s events)
      (k : HasNumbers fs laws appends config.max_record_bytes m s events l) where
    pub is_mounted : ensure_mounted fs config m s ≡ (success, m, s)
    unfolding ensure_mounted
    is_mounted = rw l.live.mounted refl

    -- What a mounted store's commit of a record answers: a status, and if it is a success, the log
    -- with the event. The tail is given `base` as its first number if there is none.
    abbrev pub Commits : Option (Outcome fs) → ℕ → LogEvent → Type 0
    Commits o base e =
        (r : Outcome fs) × (o ≡ some r)
        × (is_ok r.0 ≡ true → IsGrown fs laws appends config base m s events e r)

    -- Of a configuration that can be read back, on a store that has written a log and whose epoch
    -- and generation do not wrap with the next segment: a commit of a record, where the limits
    -- leave room for it, returns whatever fuel its loops are given. If it returns a success, the
    -- log has one more event, the enqueue of the record under its sequence number, and the fields
    -- that the log determines agree with it; the byte total grew by the event behind the room that
    -- was made, and the sequence counter did not move.
    pub commit_enqueue-IsGrown :
        (fuel seq : ℕ) (bytes : Bytes)
        → IsU32 seq
        → IsCalm (to_u32 (length bytes)) m s
        → Commits
            (commit_enqueue fs exceeds config fuel seq bytes m s)
            seq
            (LogEvent.enqueue seq bytes)
    unfolding commit_enqueue enqueue_mounted and_next
    commit_enqueue-IsGrown fuel seq bytes small calm =
        rw (is_mounted, admit-IsCalm fuel (to_u32 (length bytes)) m s calm)
          (elim (Bool-cases (too_large config bytes)) [
            | inl e ↦ rw e (
              (failure StatusCode.record_too_large, m, s),
              refl,
              λ ok. absurd (true≢false (sym ok)),
            )
            | inr e ↦ rw e (elim (Bool-cases (seq == 2 ^ 32 - 1)) [
              | inl last ↦ rw last (
                (failure StatusCode.sequence_exhausted, m, s),
                refl,
                λ ok. absurd (true≢false (sym ok)),
              )
              | inr more ↦ rw more (
                write_enqueue fs exceeds config seq bytes m s,
                refl,
                write_enqueue-IsGrown fs laws appends exceeds config c m s events l k seq bytes
                    small e,
              )
            ])
          ])

    module _ (seq : ℕ) (bytes : Bytes) (small : IsU32 seq) (fit : too_large config bytes ≡ false)
        (old : ℕ) (found : find_generation seq m.records ≡ some old) where
      abbrev size : ℕ
      size = to_u32 (enqueue_overhead_bytes + to_u32 (length bytes))

      abbrev room_made : Outcome fs
      room_made = roomy fs laws appends exceeds config c m s events l k size seq

      rewritten-IsGrown :
          (let r = and_then fs room_made (append_rewrite_record fs seq bytes old) in
            is_ok r.0 ≡ true
            → IsGrown fs laws appends config seq m s events (LogEvent.rewrite seq bytes) r)
      rewritten-IsGrown ok =
          let (ok1, is) = and_then-ok fs room_made (append_rewrite_record fs seq bytes old) ok in
          let sizes =
            size_fits fs laws appends exceeds config c m s events l k seq bytes small fit in
          let long =
            event_length fs laws appends exceeds config c m s events l k seq bytes small fit in
          let room =
            made_room fs laws appends exceeds config c m s events l k size seq
              (omega (arith, long, sizes, c.segment_cap)) ok1 in
          let left = room.room in
          rw is (
            logged_by fs laws appends exceeds config c m s events l k size seq room
              (LogEvent.rewrite seq bytes)
              (append_rewrite_record fs seq bytes old room_made.1 room_made.2) long
              (append_rewrite_record-IsAppended fs appends config.max_record_bytes room_made.1
                room_made.2 room.sealed_now room.active_now room.live seq old bytes
                (small, sizes.0, c.record_cap) (omega (arith, left, long))
                (ap (find_generation seq) room.same_records ∙ found)
                (ap (λ r. is_ok r.0) (sym is) ∙ ok)))

    found_rewrite-IsGrown :
        (seq : ℕ) (bytes : Bytes) (o : Option ℕ)
        → IsU32 seq
        → too_large config bytes ≡ false
        → find_generation seq m.records ≡ o
        → let r = append_rewrite_found fs config seq bytes o m s in
          is_ok r.0 ≡ true
          → IsGrown fs laws appends config seq m s events (LogEvent.rewrite seq bytes) r
    unfolding append_rewrite_found
    found_rewrite-IsGrown seq bytes none small fit e ok = absurd (true≢false (sym ok))
    found_rewrite-IsGrown seq bytes (some old) small fit e ok =
        rewritten-IsGrown seq bytes small fit old e ok

    appended_rewrite-IsGrown :
        (seq : ℕ) (bytes : Bytes)
        → IsU32 seq
        → too_large config bytes ≡ false
        → let r = append_rewrite_event fs config seq bytes m s in
          is_ok r.0 ≡ true
          → IsGrown fs laws appends config seq m s events (LogEvent.rewrite seq bytes) r
    unfolding append_rewrite_event
    appended_rewrite-IsGrown seq bytes small fit =
        found_rewrite-IsGrown seq bytes (find_generation seq m.records) small fit refl

    -- Of a configuration that can be read back, on a store that has written a log and whose epoch
    -- and generation do not wrap with the next segment: a rewrite, where the limits leave room for
    -- it, returns whatever fuel its loops are given. If it returns a success, the log has one more
    -- event, the rewrite of the record, and the fields that the log determines agree with it; the
    -- byte total grew by the event behind the room that was made, and the sequence counter did not
    -- move.
    pub rewrite_record-IsGrown :
        (fuel seq : ℕ) (bytes : Bytes)
        → IsU32 seq
        → IsCalm (to_u32 (length bytes)) m s
        → Commits
            (rewrite_record fs exceeds config fuel seq bytes m s)
            seq
            (LogEvent.rewrite seq bytes)
    unfolding rewrite_record rewrite_mounted and_next
    rewrite_record-IsGrown fuel seq bytes small calm =
        rw (is_mounted, admit-IsCalm fuel (to_u32 (length bytes)) m s calm)
          (elim (Bool-cases (too_large config bytes)) [
            | inl e ↦ rw e (
              (failure StatusCode.record_too_large, m, s),
              refl,
              λ ok. absurd (true≢false (sym ok)),
            )
            | inr e ↦ rw e (
              append_rewrite_event fs config seq bytes m s,
              refl,
              appended_rewrite-IsGrown seq bytes small e,
            )
          ])

    abbrev pop_room : ℕ → Outcome fs
    pop_room seq = roomy fs laws appends exceeds config c m s events l k 20 seq

    popped-IsGrown :
        (r : SegmentRecord) (rs : List SegmentRecord)
        → IsU32 r.sequence
        → m.records ≡ r ∷ rs
        → let p =
            and_then fs
              (append_pop_event fs config r.sequence m s)
              (λ m1 s1. (success, popped r.segment_generation rs m1, s1)) in
          is_ok p.0 ≡ true
          → IsGrown fs laws appends config r.sequence m s events (LogEvent.pop r.sequence) p
    unfolding append_pop_event
    popped-IsGrown r rs small front ok =
        let write = append_enqueue_event_bytes fs (serialize_pop_event r.sequence) in
        let (ok1, is1) =
          and_then-ok fs (and_then fs (pop_room r.sequence) write)
            (λ m1 s1. (success, popped r.segment_generation rs m1, s1)) ok in
        let (ok2, is2) = and_then-ok fs (pop_room r.sequence) write ok1 in
        let room =
          made_room fs laws appends exceeds config c m s events l k 20 r.sequence (omega arith)
            ok2 in
        let left = room.room in
        let wrote = write (pop_room r.sequence).1 (pop_room r.sequence).2 in
        rw (is1, is2)
          (logged_by fs laws appends exceeds config c m s events l k 20 r.sequence room
            (LogEvent.pop r.sequence) (success, popped r.segment_generation rs wrote.1, wrote.2)
            refl
            (append_pop_record-IsAppended fs appends config.max_record_bytes (pop_room r.sequence).1
              (pop_room r.sequence).2 room.sealed_now room.active_now room.live r rs (small, tt, tt)
              (omega (arith, left)) (room.same_records ∙ front)
              (ap (λ x. is_ok x.0) (sym is2) ∙ ok1)))

    pop_front-IsGrown :
        (expected : ℕ) (records : List SegmentRecord)
        → IsU32 expected
        → m.records ≡ records
        → let p = pop_front fs exceeds config expected records m s in
          is_ok p.0 ≡ true
          → IsGrown fs laws appends config expected m s events (LogEvent.pop expected) p
    unfolding pop_front
    pop_front-IsGrown expected [] small front = λ ok. absurd (true≢false (sym ok))
    pop_front-IsGrown expected (r ∷ rs) small front = elim (Bool-cases (r.sequence == expected)) [
      | inl e ↦
          let same : r.sequence ≡ expected = ground (arith, e) in
          let small' : IsU32 r.sequence = rw same small in
          rw (e, sym same) (popped-IsGrown r rs small' front)
      | inr e ↦ rw e (λ ok. absurd (true≢false (sym ok)))
    ]

    -- Of a configuration that can be read back, on a store that has written a log and whose epoch
    -- and generation do not wrap with the next segment: a pop that returns a success has made the
    -- log longer by the pop of the number that it was asked for, and the fields that the log
    -- determines agree with it; the byte total grew by the event behind the room that was made,
    -- and the sequence counter did not move.
    pub commit_pop-IsGrown :
        (expected : ℕ)
        → IsU32 expected
        → let p = commit_pop fs exceeds config expected m s in
          is_ok p.0 ≡ true
          → IsGrown fs laws appends config expected m s events (LogEvent.pop expected) p
    unfolding commit_pop and_then
    commit_pop-IsGrown expected small =
        rw is_mounted (pop_front-IsGrown expected m.records small refl)
