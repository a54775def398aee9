-- ===== src/Replay/Decode.antt =====
-- The scan finds each event that was appended, at the place where it was appended.
use pqueue.Base.{
  ℕ, zero, suc, ◌+◌, ◌%◌, ◌^◌, ◌≤◌, ◌<◌, ◌≡◌, refl, sym, ap, ◌∙◌, ◌⊎◌, [], ◌∷◌, ◌++◌, some, arith,
  length, take, drop, append_assoc, length-append, take-append_length, ◌==◌, if◌then◌else◌, min,
  length-take, append-nil,
}
use pqueue.Bytes.{
  Bytes, IsU32, u32_bytes, u16_bytes, write_u32, write_u16, read_u32, read_u16, byte_at,
}
use pqueue.Bytes.Laws.{read_u32_at, read_u16_at}
use pqueue.Crc.Reference.{crc32-IsU32}
use pqueue.LogFormat.{
  EnqueueHeader, format_version, footer_magic, enqueue_header_bytes, enqueue_magic, rewrite_magic,
  pop_magic, enqueue_event_crc, serialize_payload_event, parse_enqueue_header, parse_pop_event,
  serialize_pop_event,
}
use pqueue.LogFormat.Headers.{parse-serialize_pop_event, pop_of}
use pqueue.Replay.{Found, torn, enqueue, rewrite, pop, read_le32, find_payload_event, find_event}

pub read_le32_of : (buf : Bytes) (o v : ℕ) → read_u32 buf o ≡ some v → read_le32 buf o ≡ v
unfolding read_u32 read_le32
read_le32_of buf o v e = ground arith

-- The fixed header of an ENQUEUE or REWRITE event.
unfoldable pub header16 : ℕ → ℕ → ℕ → Bytes
header16 magic seq bytes =
    u32_bytes magic
    ++ (u16_bytes format_version
        ++ (u16_bytes enqueue_header_bytes ++ (u32_bytes seq ++ u32_bytes bytes)))

abbrev pub header_record : ℕ → ℕ → ℕ → EnqueueHeader
header_record magic seq bytes = record {
  magic = magic;
  version = format_version;
  header_bytes = enqueue_header_bytes;
  sequence = seq;
  payload_bytes = bytes;
}

unfoldable pub trailer : EnqueueHeader → Bytes → Bytes
trailer eh payload = u32_bytes (enqueue_event_crc eh payload) ++ u32_bytes footer_magic

enqueue_event_crc-IsU32 : (h : EnqueueHeader) (p : Bytes) → IsU32 (enqueue_event_crc h p)
unfolding enqueue_event_crc
enqueue_event_crc-IsU32 h p = crc32-IsU32 0 _ (omega arith)

pub length-header16 : (m s b : ℕ) → length (header16 m s b) ≡ 16
unfolding header16 u32_bytes u16_bytes
length-header16 m s b = refl

pub length-trailer : (eh : EnqueueHeader) (p : Bytes) → length (trailer eh p) ≡ 8
unfolding trailer u32_bytes
length-trailer eh p = refl

-- An event with a payload is its header, its payload and its trailer.
pub serialize_payload_event_parts :
    (m s : ℕ) (p : Bytes)
    → length p < 2 ^ 32
    → serialize_payload_event m s p
      ≡ header16 m s (length p) ++ (p ++ trailer (header_record m s (length p)) p)
unfolding serialize_payload_event header16 trailer write_u32 write_u16 u32_bytes u16_bytes
serialize_payload_event_parts m s p h =
    let small : length p % 2 ^ 32 ≡ length p = omega arith in rw small (simp append_assoc refl)

module _ (m s b : ℕ) (hm : IsU32 m) (hs : IsU32 s) (hb : IsU32 b) where
  pub header16-reads :
      (read_u32 (header16 m s b) 0 ≡ some m)
      × (read_u16 (header16 m s b) 4 ≡ some format_version)
      × (read_u16 (header16 m s b) 6 ≡ some enqueue_header_bytes)
      × (read_u32 (header16 m s b) 8 ≡ some s)
      × (read_u32 (header16 m s b) 12 ≡ some b)
  unfolding header16 u32_bytes u16_bytes
  header16-reads = (
    read_u32_at [] m _ 0 hm refl,
    read_u16_at (u32_bytes m) format_version _ 4 (omega arith) refl,
    read_u16_at (u32_bytes m ++ u16_bytes format_version) enqueue_header_bytes _ 6 (omega arith)
        refl,
    read_u32_at (u32_bytes m ++ (u16_bytes format_version ++ u16_bytes enqueue_header_bytes)) s _ 8
        hs refl,
    read_u32_at
        (u32_bytes m
          ++ (u16_bytes format_version ++ (u16_bytes enqueue_header_bytes ++ u32_bytes s)))
        b [] 12 hb refl,
  )

  parse-header16 :
      (m ≡ enqueue_magic) ⊎ (m ≡ rewrite_magic)
      → parse_enqueue_header (header16 m s b) ≡ some (header_record m s b)
  unfolding parse_enqueue_header
  parse-header16 kind = ground (arith, header16-reads, length-header16 m s b)

-- What the scan finds for an event of either kind.
abbrev pub found_payload : ℕ → ℕ → ℕ → Found
found_payload m s b = if m == enqueue_magic then enqueue s b (b + 24) else rewrite s b (b + 24)

module _ (max m s : ℕ) (p rest : Bytes) (hs : IsU32 s) (hm : IsU32 m) (small : length p ≤ max)
    (room : max + 24 < 2 ^ 32) where
  abbrev eh : EnqueueHeader
  eh = header_record m s (length p)

  abbrev whole : Bytes
  whole = header16 m s (length p) ++ ((p ++ trailer eh p) ++ rest)

  length-whole : length whole ≡ length p + 24 + length rest
  length-whole = omega (
    arith,
    length-append (header16 m s (length p)) ((p ++ trailer eh p) ++ rest),
    length-append (p ++ trailer eh p) rest,
    length-append p (trailer eh p),
    length-trailer eh p,
    length-header16 m s (length p),
  )

  payload_and_trailer : take (length p + 8) (drop 16 whole) ≡ p ++ trailer eh p
  unfolding header16 u32_bytes u16_bytes
  payload_and_trailer =
      let e : length p + 8 ≡ length (p ++ trailer eh p) =
        omega (arith, length-append p (trailer eh p), length-trailer eh p) in
      ap (λ n. take n ((p ++ trailer eh p) ++ rest)) e ∙ take-append_length (p ++ trailer eh p) rest

  stored_crc : read_le32 (p ++ trailer eh p) (length p) ≡ enqueue_event_crc eh p
  unfolding trailer
  stored_crc =
      read_le32_of _ (length p) _
        (read_u32_at p (enqueue_event_crc eh p) _ (length p) (enqueue_event_crc-IsU32 eh p) refl)

  stored_footer : read_le32 (p ++ trailer eh p) (length p + 4) ≡ footer_magic
  unfolding trailer u32_bytes
  stored_footer = read_le32_of _ (length p + 4) _ (
      ap (λ t. read_u32 t (length p + 4))
        (sym (append_assoc p (u32_bytes (enqueue_event_crc eh p)) (u32_bytes footer_magic)))
      ∙ read_u32_at (p ++ u32_bytes (enqueue_event_crc eh p)) footer_magic [] (length p + 4)
          (omega arith) (omega (arith, length-append p (u32_bytes (enqueue_event_crc eh p)))))

  pub find_payload_event-whole : find_payload_event max whole eh ≡ found_payload m s (length p)
  unfolding find_payload_event
  find_payload_event-whole =
      let e1 : (16 + length p + 8) % 2 ^ 32 ≡ length p + 24 = omega arith in
      let e2 : (length p + 8) % 2 ^ 32 ≡ length p + 8 = omega arith in
      rw (e1, e2, payload_and_trailer, take-append_length p (trailer eh p))
        (ground (
          arith,
          length-whole,
          stored_crc,
          stored_footer,
          length-append p (trailer eh p),
          length-trailer eh p,
        ))

byte_at-take : (n i : ℕ) (xs : Bytes) → i < n → byte_at (take n xs) i ≡ byte_at xs i
unfolding byte_at
byte_at-take zero i xs h = elim h [ ]
byte_at-take (suc n) i [] h = refl
byte_at-take (suc n) zero (x ∷ xs) h = refl
byte_at-take (suc n) (suc i) (x ∷ xs) h = byte_at-take n i xs (omega arith)

pub read_le32-take : (n : ℕ) (xs : Bytes) → 4 ≤ n → read_le32 (take n xs) 0 ≡ read_le32 xs 0
unfolding read_le32
read_le32-take n xs h = cc (
  byte_at-take n 0 xs (omega arith),
  byte_at-take n (0 + 1) xs (omega arith),
  byte_at-take n (0 + 2) xs (omega arith),
  byte_at-take n (0 + 3) xs (omega arith),
)

-- How a round of the scan goes once four bytes give the magic number.
module _ (max m : ℕ) (rest : Bytes) (four : 4 ≤ length rest) (magic : read_le32 rest 0 ≡ m) where
  magic_in_buffer : read_le32 (take (min (length rest) 16) rest) 0 ≡ m
  magic_in_buffer = read_le32-take (min (length rest) 16) rest (omega arith) ∙ magic

  pub find_event_short_payload :
      (m ≡ enqueue_magic) ⊎ (m ≡ rewrite_magic) → length rest < 16 → find_event max rest ≡ torn
  unfolding find_event
  find_event_short_payload kind h =
      rw magic_in_buffer (ground (arith, length-take (min (length rest) 16) rest))

  pub find_event_payload :
      (s b : ℕ)
      → IsU32 s
      → IsU32 b
      → IsU32 m
      → (m ≡ enqueue_magic) ⊎ (m ≡ rewrite_magic)
      → 16 ≤ length rest
      → take 16 rest ≡ header16 m s b
      → find_event max rest ≡ find_payload_event max rest (header_record m s b)
  unfolding find_event
  find_event_payload s b hs hb hm kind h e =
      let long : min (length rest) 16 ≡ 16 = omega arith in
      rw magic_in_buffer
        (rw (long, e, parse-header16 m s b hm hs hb kind) (ground (arith, length-header16 m s b)))

  pub find_event_short_pop : m ≡ pop_magic → length rest < 20 → find_event max rest ≡ torn
  unfolding find_event
  find_event_short_pop kind h =
      rw magic_in_buffer (ground (arith, length-take (min (length rest) 16) rest))

  pub find_event-pop :
      (s : ℕ)
      → IsU32 s
      → m ≡ pop_magic
      → 20 ≤ length rest
      → take 20 rest ≡ serialize_pop_event s
      → find_event max rest ≡ pop s 20
  unfolding find_event
  find_event-pop s hs kind h e =
      rw magic_in_buffer (rw (e, parsed) (ground (arith, length-take (min (length rest) 16) rest)))
    where
      parsed : parse_pop_event (serialize_pop_event s) ≡ some (pop_of s)
      parsed =
          ap parse_pop_event (sym (append-nil (serialize_pop_event s)))
          ∙ parse-serialize_pop_event s [] hs

pub find_event_short : (max : ℕ) (rest : Bytes) → length rest < 4 → find_event max rest ≡ torn
unfolding find_event
find_event_short max rest h = ground arith
