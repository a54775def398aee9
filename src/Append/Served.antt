-- ===== src/Append/Served.antt =====
-- The commits of AppendLogStore as the queue sees them: what is in the queue before and behind.
use pqueue.Base.{
  ℕ, ◌≡◌, refl, sym, ap, ◌∙◌, inl, inr, Bool, true, List, [], ◌∷◌, ◌++◌, some, arith, length,
  Bool-cases, true≢false, ◌==◌, ==_refl,
}
use pqueue.Bytes.{Bytes, IsU32}
use pqueue.LogFormat.{to_u32}
use pqueue.Status.{is_ok}
use pqueue.FileSystem.{FileSystem, FileSystemLaws, AppendLaws}
use pqueue.Replay.{SegmentRecord}
use pqueue.Replay.Contents.{contents, item_of}
use pqueue.Replay.Events.{LogEvent, Items, after_event, pop_item, queue_after}
use pqueue.Replay.Restore.{queue_after-append}
use pqueue.Store.{Store}
use pqueue.Append.{StoreConfig, Outcome, and_then}
use pqueue.Append.Commit.{commit_enqueue, pop_front, commit_pop}
use pqueue.Append.Live.{file_at}
use pqueue.Append.Commits.{IsConfig, IsLogged, HasNumbers}
use pqueue.Append.Interface.{IsCalm, is_mounted, commit_enqueue-IsGrown, commit_pop-IsGrown}
use pqueue.Append.Reread.{contents-IsLogged}

-- A pop of the front's number takes the front.
front_popped :
    (items : Items) (seq : ℕ) (payload : Bytes) (rest : Items)
    → items ≡ (seq, payload) ∷ rest
    → items ≡ (seq, payload) ∷ pop_item seq items
front_popped items seq payload rest e =
    e ∙ ap (λ t. (seq, payload) ∷ t) (sym (ap (pop_item seq) e ∙ rw (==_refl seq) refl))

module _ (fs : FileSystem) (laws : FileSystemLaws fs) (appends : AppendLaws fs)
    (exceeds : ℕ × ℕ → ℕ × ℕ → Bool) (config : StoreConfig) (c : IsConfig config) (m : Store)
    (s : fs.State) (events : List LogEvent)
    (l : IsLogged fs laws appends config.max_record_bytes m s events)
    (k : HasNumbers fs laws appends config.max_record_bytes m s events l) where
  -- The queue of a store: its records in memory, with the payloads in their files.
  abbrev pub queue_of : Store → fs.State → Items
  queue_of m' s' = contents (file_at fs s') m'.records

  grown_queue :
      (r : Outcome fs) (e : LogEvent)
      → IsLogged fs laws appends config.max_record_bytes r.1 r.2 (events ++ (e ∷ []))
      → queue_of r.1 r.2 ≡ after_event (queue_of m s) e
  unfolding queue_after
  grown_queue r e g =
      contents-IsLogged fs laws appends config.max_record_bytes r.1 r.2 (events ++ (e ∷ [])) g
      ∙ queue_after-append [] events (e ∷ [])
      ∙ ap (λ t. after_event t e)
          (sym (contents-IsLogged fs laws appends config.max_record_bytes m s events l))

  -- Of a configuration that can be read back, on a store that has written a log and whose epoch
  -- and generation do not wrap with the next segment: a commit of a record, where the limits leave
  -- room for it, returns; if it returns a success, the queue has the record behind the others, and
  -- the others as they were.
  pub commit_enqueue-contents :
      (fuel seq : ℕ) (bytes : Bytes)
      → IsU32 seq
      → IsCalm fs laws appends exceeds config c (to_u32 (length bytes)) m s
      → (r : Outcome fs) × (commit_enqueue fs exceeds config fuel seq bytes m s ≡ some r)
        × (is_ok r.0 ≡ true → queue_of r.1 r.2 ≡ queue_of m s ++ ((seq, bytes) ∷ []))
  commit_enqueue-contents fuel seq bytes small calm =
      let (r, is, grown) =
        commit_enqueue-IsGrown fs laws appends exceeds config c m s events l k fuel seq bytes small
          calm in
      (r, is, λ ok. grown_queue r (LogEvent.enqueue seq bytes) (grown ok).logged)

  pop_front-ok :
      (expected : ℕ) (records : List SegmentRecord)
      → is_ok (pop_front fs exceeds config expected records m s).0 ≡ true
      → (r : SegmentRecord) × (rs : List SegmentRecord) × (records ≡ r ∷ rs)
        × (r.sequence ≡ expected)
  unfolding pop_front
  pop_front-ok expected [] ok = absurd (true≢false (sym ok))
  pop_front-ok expected (r ∷ rs) ok = elim (Bool-cases (r.sequence == expected)) [
    | inl e ↦ (r, rs, refl, ground (arith, e))
    | inr e ↦ absurd (true≢false (sym (rw e at ok)))
  ]

  commit_pop-front :
      (expected : ℕ)
      → is_ok (commit_pop fs exceeds config expected m s).0 ≡ true
      → (r : SegmentRecord) × (rs : List SegmentRecord) × (m.records ≡ r ∷ rs)
        × (r.sequence ≡ expected)
  unfolding commit_pop and_then
  commit_pop-front expected =
      rw (is_mounted fs laws appends exceeds config c m s events l k)
        (pop_front-ok expected m.records)

  -- Of a configuration that can be read back, on a store that has written a log and whose epoch
  -- and generation do not wrap with the next segment: a pop that returns a success has taken the
  -- front of the queue, which had the number that it was asked for, and nothing else.
  pub commit_pop-contents :
      (expected : ℕ)
      → IsU32 expected
      → let p = commit_pop fs exceeds config expected m s in
        is_ok p.0 ≡ true
        → (payload : Bytes) × (queue_of m s ≡ (expected, payload) ∷ queue_of p.1 p.2)
  commit_pop-contents expected small ok =
      let p = commit_pop fs exceeds config expected m s in
      let grown =
        commit_pop-IsGrown fs laws appends exceeds config c m s events l k expected small ok in
      let (r, rs, front, same) = commit_pop-front expected ok in
      let (seq, payload) = item_at r in
      let at : queue_of m s ≡ (expected, payload) ∷ contents (file_at fs s) rs =
        ap (contents (file_at fs s)) front
        ∙ ap (λ n. (n, payload) ∷ contents (file_at fs s) rs) same in
      (
        payload,
        front_popped (queue_of m s) expected payload (contents (file_at fs s) rs) at
            ∙ ap (λ t. (expected, payload) ∷ t)
                (sym (grown_queue p (LogEvent.pop expected) grown.logged)),
      )
    where
      item_at : SegmentRecord → ℕ × Bytes
      item_at r = item_of (file_at fs s) r
