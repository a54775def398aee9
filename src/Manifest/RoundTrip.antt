-- ===== src/Manifest/RoundTrip.antt =====
-- A manifest that was written is read back.
use pqueue.Base.{
  ℕ, ◌+◌, ◌*◌, ◌≤◌, ◌<◌, ◌≡◌, ◌≢◌, refl, sym, ap, ◌∙◌, ◌⊎◌, List, [], ◌∷◌, ◌++◌, some, arith,
  length, take, drop, All, append_assoc, append-nil, length-append, drop-add, take-append_length,
}
use pqueue.Bytes.{Bytes, IsU32, u32_bytes, u16_bytes, write_u32, write_u16}
use pqueue.Bytes.Laws.{length-u32_bytes}
use pqueue.Crc.{crc32}
use pqueue.Crc.Reference.{crc32-IsU32}
use pqueue.LogFormat.{footer_magic}
use pqueue.Manifest.{
  ManifestRange, ManifestData, manifest_magic, manifest_version, manifest_fixed_bytes,
  manifest_max_ranges, to_u16, le_u32, le_u16, push_ranges, manifest_body, serialise_manifest,
  parse_ranges, parse_manifest,
}
use pqueue.Manifest.Cursor.{le_u32_at, le_u16_at}

-- The manifests that the parser accepts: generations start at 1, ranges are not empty, and a
-- manifest with ranges has a tail.
pub record IsRange (r : ManifestRange) : Type 0 where
  pub start_pos : 0 < r.start_gen
  pub ordered : r.start_gen ≤ r.end_gen
  pub end_small : IsU32 r.end_gen

pub record IsManifest (m : ManifestData) : Type 0 where
  pub epoch_small : IsU32 m.epoch
  pub next_small : IsU32 m.next_generation
  pub few : length m.ranges ≤ manifest_max_ranges
  pub are_ranges : All IsRange m.ranges
  pub tail_small : IsU32 m.tail_generation
  pub has_tail : (m.tail_generation ≢ 0) ⊎ (length m.ranges ≡ 0)

abbrev pub range_bytes : List ManifestRange → Bytes
range_bytes [] = []
range_bytes (r ∷ rs) = u32_bytes r.start_gen ++ (u32_bytes r.end_gen ++ range_bytes rs)

pub push_ranges-append :
    (out : Bytes) (rs : List ManifestRange) → push_ranges out rs ≡ out ++ range_bytes rs
unfolding push_ranges write_u32
push_ranges-append out [] = sym (append-nil out)
push_ranges-append out (r ∷ rs) =
    push_ranges-append ((out ++ u32_bytes r.start_gen) ++ u32_bytes r.end_gen) rs
    ∙ append_assoc (out ++ u32_bytes r.start_gen) (u32_bytes r.end_gen) (range_bytes rs)
    ∙ append_assoc out (u32_bytes r.start_gen) (u32_bytes r.end_gen ++ range_bytes rs)

-- The fields of a manifest in front of any bytes.
pub manifest_parts : ℕ → ℕ → ManifestData → Bytes → Bytes
manifest_parts header_bytes count m rest =
    u32_bytes manifest_magic
    ++ (u16_bytes manifest_version
        ++ (u16_bytes header_bytes
            ++ (u32_bytes m.epoch
                ++ (u32_bytes m.next_generation
                    ++ (u16_bytes count
                        ++ (range_bytes m.ranges ++ (u32_bytes m.tail_generation ++ rest)))))))

abbrev pub count_of : ManifestData → ℕ
count_of m = to_u16 (length m.ranges)

abbrev pub header_bytes_of : ManifestData → ℕ
header_bytes_of m = to_u16 (manifest_fixed_bytes + count_of m * 8)

pub manifest_body-append :
    (m : ManifestData) (rest : Bytes)
    → manifest_body m ++ rest ≡ manifest_parts (header_bytes_of m) (count_of m) m rest
unfolding manifest_body manifest_parts write_u32 write_u16 u32_bytes u16_bytes
manifest_body-append m rest = rw push_ranges-append (simp append_assoc refl)

abbrev pub checksum_of : ManifestData → ℕ
checksum_of m = crc32 0 (manifest_body m)

pub serialise_manifest_parts :
    (m : ManifestData)
    → serialise_manifest m
      ≡ manifest_body m ++ (u32_bytes (checksum_of m) ++ u32_bytes footer_magic)
unfolding serialise_manifest write_u32
serialise_manifest_parts m =
    append_assoc (manifest_body m) (u32_bytes (checksum_of m)) (u32_bytes footer_magic)

behind_u32 :
    (bytes : Bytes) (o v : ℕ) (rest : Bytes)
    → drop o bytes ≡ u32_bytes v ++ rest
    → drop (o + 4) bytes ≡ rest
behind_u32 bytes o v rest e = drop-add o 4 bytes ∙ ap (drop 4) e ∙ (unfold u32_bytes in refl)

behind_u16 :
    (bytes : Bytes) (o v : ℕ) (rest : Bytes)
    → drop o bytes ≡ u16_bytes v ++ rest
    → drop (o + 2) bytes ≡ rest
behind_u16 bytes o v rest e = drop-add o 2 bytes ∙ ap (drop 2) e ∙ (unfold u16_bytes in refl)

-- The cursor behind the ranges.
abbrev pub cursor_after : ℕ → List ManifestRange → ℕ
cursor_after o [] = o
cursor_after o (r ∷ rs) = cursor_after (o + 4 + 4) rs

parse_ranges-bytes :
    (bytes : Bytes) (o : ℕ) (rs : List ManifestRange) (rest : Bytes)
    → All IsRange rs
    → drop o bytes ≡ range_bytes rs ++ rest
    → (parse_ranges (length rs) bytes o ≡ some (rs, cursor_after o rs))
      × (drop (cursor_after o rs) bytes ≡ rest)
unfolding parse_ranges
parse_ranges-bytes bytes o [] rest h e = (refl, e)
parse_ranges-bytes bytes o (r ∷ rs) rest (hr, h) e =
    let e1 =
      e ∙ append_assoc (u32_bytes r.start_gen) (u32_bytes r.end_gen ++ range_bytes rs) rest in
    let e2 =
      behind_u32 bytes o r.start_gen _ e1
      ∙ append_assoc (u32_bytes r.end_gen) (range_bytes rs) rest in
    let e3 = behind_u32 bytes (o + 4) r.end_gen _ e2 in
    let (p, d) = parse_ranges-bytes bytes (o + 4 + 4) rs rest h e3 in
    (
      ground (
        arith,
        le_u32_at bytes o r.start_gen _ (omega arith) e1,
        le_u32_at bytes (o + 4) r.end_gen _ hr.end_small e2,
        p,
      ),
      d,
    )

length-range_bytes : (rs : List ManifestRange) → length (range_bytes rs) ≡ length rs * 8
unfolding u32_bytes
length-range_bytes [] = refl
length-range_bytes (r ∷ rs) = omega (arith, length-range_bytes rs)

cursor_after_lem : (o : ℕ) (rs : List ManifestRange) → cursor_after o rs ≡ o + length rs * 8
cursor_after_lem o [] = omega arith
cursor_after_lem o (r ∷ rs) = omega (arith, cursor_after_lem (o + 4 + 4) rs)

length-manifest_parts :
    (hb c : ℕ) (m : ManifestData) (rest : Bytes)
    → length (manifest_parts hb c m rest) ≡ 22 + length m.ranges * 8 + length rest
unfolding manifest_parts u32_bytes u16_bytes
length-manifest_parts hb c m rest = omega (
  arith,
  length-append (range_bytes m.ranges) (u32_bytes m.tail_generation ++ rest),
  length-range_bytes m.ranges,
)

module _ (m : ManifestData) (h : IsManifest m) where
  abbrev written : Bytes
  written = serialise_manifest m

  abbrev closing : Bytes
  closing = u32_bytes (checksum_of m) ++ u32_bytes footer_magic

  abbrev hb : ℕ
  hb = header_bytes_of m

  abbrev c : ℕ
  c = count_of m

  count_small : c ≡ length m.ranges
  count_small = omega (arith, h.few)

  header_small : hb ≡ 30 + length m.ranges * 8
  header_small = omega (arith, h.few)

  whole : written ≡ manifest_parts hb c m closing
  whole = serialise_manifest_parts m ∙ manifest_body-append m closing

  length-written : length written ≡ 30 + length m.ranges * 8
  length-written =
      ap length whole ∙ length-manifest_parts hb c m closing ∙ (unfold u32_bytes in omega arith)

  abbrev o : ℕ
  o = cursor_after 18 m.ranges

  d18 : drop 18 written ≡ range_bytes m.ranges ++ (u32_bytes m.tail_generation ++ closing)
  d18 = ap (drop 18) whole ∙ (unfold manifest_parts u32_bytes u16_bytes in refl)

  abbrev from_count : Bytes
  from_count = u16_bytes c ++ (range_bytes m.ranges ++ (u32_bytes m.tail_generation ++ closing))

  abbrev from_next : Bytes
  from_next = u32_bytes m.next_generation ++ from_count

  abbrev from_epoch : Bytes
  from_epoch = u32_bytes m.epoch ++ from_next

  header_read :
      (le_u32 written 0 ≡ some (manifest_magic, 4))
      × (le_u16 written 4 ≡ some (manifest_version, 6))
      × (le_u16 written 6 ≡ some (hb, 8))
      × (le_u32 written 8 ≡ some (m.epoch, 12))
      × (le_u32 written 12 ≡ some (m.next_generation, 16))
      × (le_u16 written 16 ≡ some (c, 18))
  unfolding manifest_parts
  header_read =
      let at4 = behind_u32 written 0 manifest_magic _ whole in
      let at6 = behind_u16 written 4 manifest_version (u16_bytes hb ++ from_epoch) at4 in
      let at8 = behind_u16 written 6 hb from_epoch at6 in
      let at12 = behind_u32 written 8 m.epoch from_next at8 in
      let at16 = behind_u32 written 12 m.next_generation from_count at12 in
      (
        le_u32_at written 0 manifest_magic _ (omega arith) whole,
        le_u16_at written 4 manifest_version _ (omega arith) at4,
        le_u16_at written 6 hb from_epoch (omega (arith, h.few)) at6,
        le_u32_at written 8 m.epoch from_next h.epoch_small at8,
        le_u32_at written 12 m.next_generation from_count h.next_small at12,
        le_u16_at written 16 c _ (omega (arith, h.few)) at16,
      )

  ranges_read :
      (parse_ranges (length m.ranges) written 18 ≡ some (m.ranges, o))
      × (drop o written ≡ u32_bytes m.tail_generation ++ closing)
  ranges_read = parse_ranges-bytes written 18 m.ranges _ h.are_ranges d18

  dcrc : drop (o + 4) written ≡ closing
  dcrc = behind_u32 written o m.tail_generation closing ranges_read.1

  dfooter : drop (o + 4 + 4) written ≡ u32_bytes footer_magic
  dfooter = behind_u32 written (o + 4) (checksum_of m) (u32_bytes footer_magic) dcrc

  body_taken : take (o + 4) written ≡ manifest_body m
  body_taken =
      ap (take (o + 4)) (serialise_manifest_parts m)
      ∙ ap (λ n. take n (manifest_body m ++ closing)) at_body
      ∙ take-append_length (manifest_body m) closing
    where
      at_body : o + 4 ≡ length (manifest_body m)
      at_body = omega (
        arith,
        cursor_after_lem 18 m.ranges,
        length-written,
        ap length (serialise_manifest_parts m),
        length-append (manifest_body m) closing,
        length-u32_bytes (checksum_of m),
        length-u32_bytes footer_magic,
        length-append (u32_bytes (checksum_of m)) (u32_bytes footer_magic),
      )

  -- A manifest that the parser can accept is read back from its serialised form.
  pub parse-serialise_manifest : parse_manifest (serialise_manifest m) ≡ some m
  unfolding parse_manifest
  parse-serialise_manifest = ground (
    arith,
    h.few,
    h.has_tail,
    count_small,
    header_small,
    length-written,
    header_read,
    le_u32_at written o m.tail_generation closing h.tail_small ranges_read.1,
    le_u32_at written (o + 4) (checksum_of m) _ (crc32-IsU32 0 (manifest_body m) (omega arith))
        dcrc,
    le_u32_at written (o + 4 + 4) footer_magic [] (omega arith) (dfooter ∙ sym (append-nil _)),
    ranges_read.0,
    body_taken,
  )
