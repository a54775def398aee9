-- ===== src/Replay/Torn.antt =====
-- An event that was appended whole is found; one of which only a part reached the disk is torn.
use pqueue.Base.{
  ℕ, zero, suc, ◌+◌, ◌^◌, ◌≤◌, ◌<◌, ◌≡◌, refl, sym, ap, ◌∙◌, inl, inr, ◌⊎◌, [], ◌∷◌, ◌++◌, arith,
  length, take, append_assoc, append-nil, length-append, take-append_length, ◌%◌,
}
use native.Mathlib.Decide.{dec_lt}
use pqueue.Bytes.{Bytes, IsU32, u32_bytes, u16_bytes}
use pqueue.Bytes.Laws.{read_u32_at}
use pqueue.LogFormat.{
  enqueue_magic, rewrite_magic, pop_magic, serialize_payload_event, serialize_enqueue_event,
  serialize_rewrite_event, serialize_pop_event,
}
use pqueue.LogFormat.Headers.{serialize_pop_event-fields, fields}
use pqueue.Replay.{Found, torn, pop, read_le32, find_payload_event, find_event}
use pqueue.Replay.Events.{LogEvent, Fits, event_bytes}
use pqueue.Replay.Decode.{
  read_le32_of, read_le32-take, header16, trailer, header_record, length-header16, length-trailer,
  header16-reads, serialize_payload_event_parts, found_payload, find_payload_event-whole,
  find_event_short_payload, find_event_payload, find_event_short_pop, find_event-pop,
  find_event_short,
}

take-append_le : (n : ℕ) (t xs : Bytes) → n ≤ length t → take n (t ++ xs) ≡ take n t
take-append_le zero t xs h = refl
take-append_le (suc n) [] xs h = absurd (omega arith)
take-append_le (suc n) (x ∷ t) xs h = ap (λ u. x ∷ u) (take-append_le n t xs (omega arith))

read_le32-prefix : (t xs : Bytes) → 4 ≤ length t → read_le32 t 0 ≡ read_le32 (t ++ xs) 0
read_le32-prefix t xs h =
    sym (read_le32-take 4 t (omega arith))
    ∙ ap (λ u. read_le32 u 0) (sym (take-append_le 4 t xs h))
    ∙ read_le32-take 4 (t ++ xs) (omega arith)

module _ (max m s : ℕ) (p : Bytes) (kind : (m ≡ enqueue_magic) ⊎ (m ≡ rewrite_magic)) (hs : IsU32 s)
    (small : length p ≤ max) (room : max + 24 < 2 ^ 32) where
  abbrev event : Bytes
  event = serialize_payload_event m s p

  hm : IsU32 m
  hm = omega (arith, kind)

  parts : event ≡ header16 m s (length p) ++ (p ++ trailer (header_record m s (length p)) p)
  parts = serialize_payload_event_parts m s p (omega arith)

  length-event : length event ≡ length p + 24
  length-event =
      ap length parts
      ∙ omega (
        arith,
        length-append (header16 m s (length p)) (p ++ trailer (header_record m s (length p)) p),
        length-append p (trailer (header_record m s (length p)) p),
        length-header16 m s (length p),
        length-trailer (header_record m s (length p)) p,
      )

  magic_of_event : (xs : Bytes) → read_le32 (event ++ xs) 0 ≡ m
  magic_of_event xs =
      sym (read_le32-prefix event xs (omega (arith, length-event)))
      ∙ ap (λ t. read_le32 t 0) parts
      ∙ sym (
          read_le32-prefix (header16 m s (length p)) _
            (omega (arith, length-header16 m s (length p))))
      ∙ read_le32_of _ 0 m (header16-reads m s (length p) hm hs (omega arith)).0

  head_of_event : (xs : Bytes) → take 16 (event ++ xs) ≡ header16 m s (length p)
  head_of_event xs =
      take-append_le 16 event xs (omega (arith, length-event))
      ∙ ap (take 16) parts
      ∙ take-append_le 16 (header16 m s (length p)) _
          (omega (arith, length-header16 m s (length p)))
      ∙ (unfold header16 u32_bytes u16_bytes in refl)

  pub find_event_whole_payload :
      (xs : Bytes) → find_event max (event ++ xs) ≡ found_payload m s (length p)
  find_event_whole_payload xs =
      find_event_payload max m (event ++ xs) (omega (arith, long)) (magic_of_event xs) s (length p)
        hs (omega arith) hm kind (omega (arith, long)) (head_of_event xs)
      ∙ ap (λ t. find_payload_event max t (header_record m s (length p)))
          (ap (λ t. t ++ xs) parts ∙ append_assoc (header16 m s (length p)) _ xs)
      ∙ find_payload_event-whole max m s p xs hs hm small room
    where
      long : length (event ++ xs) ≡ length p + 24 + length xs
      long = omega (arith, length-append event xs, length-event)

  pub find_event_part_payload :
      (t xs : Bytes) → event ≡ t ++ xs → length t < length event → find_event max t ≡ torn
  find_event_part_payload t xs e h = elim (dec_lt (length t) 4) [
    | yes short ↦ find_event_short max t short
    | no four ↦ elim (dec_lt (length t) 16) [
      | yes short ↦ find_event_short_payload max m t (omega arith) (magic (omega arith)) kind short
      | no long ↦
          find_event_payload max m t (omega arith) (magic (omega arith)) s (length p) hs
            (omega arith) hm kind (omega arith) (head (omega arith))
          ∙ torn_payload
    ]
  ]
    where
      magic : 4 ≤ length t → read_le32 t 0 ≡ m
      magic four =
          read_le32-prefix t xs four
          ∙ ap (λ u. read_le32 u 0) (sym e ∙ sym (append-nil event))
          ∙ magic_of_event []

      head : 16 ≤ length t → take 16 t ≡ header16 m s (length p)
      head long =
          sym (take-append_le 16 t xs long)
          ∙ ap (take 16) (sym e ∙ sym (append-nil event))
          ∙ head_of_event []

      torn_payload : find_payload_event max t (header_record m s (length p)) ≡ torn
      torn_payload =
          unfold find_payload_event in
          (let e1 : (16 + length p + 8) % 2 ^ 32 ≡ length p + 24 = omega arith in
            rw e1 (ground (arith, length-event)))

module _ (max s : ℕ) (hs : IsU32 s) where
  length-pop : length (serialize_pop_event s) ≡ 20
  length-pop =
      ap length (serialize_pop_event-fields s) ∙ (unfold fields u32_bytes u16_bytes in refl)

  magic_of_pop : (xs : Bytes) → read_le32 (serialize_pop_event s ++ xs) 0 ≡ pop_magic
  magic_of_pop xs =
      sym (read_le32-prefix (serialize_pop_event s) xs (omega (arith, length-pop)))
      ∙ ap (λ t. read_le32 t 0) (serialize_pop_event-fields s)
      ∙ read_le32_of _ 0 pop_magic
          (unfold fields in read_u32_at [] pop_magic _ 0 (omega arith) refl)

  pub find_event_whole_pop : (xs : Bytes) → find_event max (serialize_pop_event s ++ xs) ≡ pop s 20
  find_event_whole_pop xs =
      find_event-pop max pop_magic (serialize_pop_event s ++ xs) (omega (arith, long))
        (magic_of_pop xs) s hs refl (omega (arith, long))
        (take-append_le 20 (serialize_pop_event s) xs (omega (arith, length-pop)) ∙ all)
    where
      long : length (serialize_pop_event s ++ xs) ≡ 20 + length xs
      long = omega (arith, length-append (serialize_pop_event s) xs, length-pop)

      all : take 20 (serialize_pop_event s) ≡ serialize_pop_event s
      all =
          ap (λ n. take n (serialize_pop_event s)) (sym length-pop)
          ∙ ap (take (length (serialize_pop_event s))) (sym (append-nil (serialize_pop_event s)))
          ∙ take-append_length (serialize_pop_event s) []

  pub find_event_part_pop :
      (t xs : Bytes) → serialize_pop_event s ≡ t ++ xs → length t < 20 → find_event max t ≡ torn
  find_event_part_pop t xs e h = elim (dec_lt (length t) 4) [
    | yes short ↦ find_event_short max t short
    | no four ↦
        find_event_short_pop max pop_magic t (omega arith)
          (read_le32-prefix t xs (omega arith)
            ∙ ap (λ u. read_le32 u 0) (sym e ∙ sym (append-nil (serialize_pop_event s)))
            ∙ magic_of_pop [])
          refl h
  ]

-- What the scan finds where an event was appended.
abbrev pub found_of : LogEvent → Found
found_of (LogEvent.enqueue s p) = Found.enqueue s (length p) (length p + 24)
found_of (LogEvent.rewrite s p) = Found.rewrite s (length p) (length p + 24)
found_of (LogEvent.pop s) = Found.pop s 20

-- The bytes that an event takes up.
abbrev pub event_size : LogEvent → ℕ
event_size (LogEvent.enqueue s p) = length p + 24
event_size (LogEvent.rewrite s p) = length p + 24
event_size (LogEvent.pop s) = 20

pub length-event_bytes :
    (max : ℕ) (e : LogEvent) → Fits max e → length (event_bytes e) ≡ event_size e
unfolding serialize_enqueue_event serialize_rewrite_event
length-event_bytes max (LogEvent.enqueue s p) (hs, small, room) =
    length-event max enqueue_magic s p (inl refl) hs small room
length-event_bytes max (LogEvent.rewrite s p) (hs, small, room) =
    length-event max rewrite_magic s p (inr refl) hs small room
length-event_bytes max (LogEvent.pop s) (hs, _, _) = length-pop max s hs

-- The scan finds an event that was appended, whatever bytes follow it.
pub find-event_bytes :
    (max : ℕ) (e : LogEvent) (rest : Bytes)
    → Fits max e
    → find_event max (event_bytes e ++ rest) ≡ found_of e
unfolding serialize_enqueue_event serialize_rewrite_event
find-event_bytes max (LogEvent.enqueue s p) rest (hs, small, room) =
    find_event_whole_payload max enqueue_magic s p (inl refl) hs small room rest
find-event_bytes max (LogEvent.rewrite s p) rest (hs, small, room) =
    find_event_whole_payload max rewrite_magic s p (inr refl) hs small room rest
find-event_bytes max (LogEvent.pop s) rest (hs, _, _) = find_event_whole_pop max s hs rest

-- The scan finds a torn event where the segment ends inside an event that was being appended.
pub find_event-torn :
    (max : ℕ) (e : LogEvent) (part lost : Bytes)
    → Fits max e
    → event_bytes e ≡ part ++ lost
    → length part < event_size e
    → find_event max part ≡ torn
unfolding serialize_enqueue_event serialize_rewrite_event
find_event-torn max (LogEvent.enqueue s p) part lost (hs, small, room) e h =
    find_event_part_payload max enqueue_magic s p (inl refl) hs small room part lost e
      (omega (arith, length-event max enqueue_magic s p (inl refl) hs small room))
find_event-torn max (LogEvent.rewrite s p) part lost (hs, small, room) e h =
    find_event_part_payload max rewrite_magic s p (inr refl) hs small room part lost e
      (omega (arith, length-event max rewrite_magic s p (inr refl) hs small room))
find_event-torn max (LogEvent.pop s) part lost (hs, _, _) e h =
    find_event_part_pop max s hs part lost e h
