-- ===== src/Manifest.antt =====
-- The manifest, `serialiseManifest` and `parseManifest` of src/pqueue/append_log_common.cpp.
pub mod Cursor
pub mod RoundTrip
pub mod Slots
use pqueue.Base.{
  ℕ, zero, suc, ◌+◌, ◌*◌, ◌%◌, ◌^◌, ◌≡◌, Bool, not, ◌&&◌, List, [], ◌∷◌, ◌++◌, Option, none, some,
  ltb, ◌==◌, if◌then◌else◌, ◌>>=◌, ◌>>◌, guard, length, take,
}
use pqueue.Bytes.{Bytes, write_u32, write_u16, read_u32, read_u16}
use pqueue.Crc.{crc32}
use pqueue.LogFormat.{footer_magic}

abbrev pub manifest_magic : ℕ
manifest_magic = 0x464d_5150

abbrev pub manifest_version : ℕ
manifest_version = 1

abbrev pub manifest_fixed_bytes : ℕ
manifest_fixed_bytes = 30

abbrev pub manifest_max_ranges : ℕ
manifest_max_ranges = 1024

pub record ManifestRange : Type 0 where
  pub start_gen : ℕ
  pub end_gen : ℕ

pub record ManifestData : Type 0 where
  pub epoch : ℕ
  pub next_generation : ℕ
  pub ranges : List ManifestRange
  pub tail_generation : ℕ

-- `static_cast<std::uint16_t>`
abbrev pub to_u16 : ℕ → ℕ
to_u16 n = n % 2 ^ 16

unfoldable pub push_ranges : Bytes → List ManifestRange → Bytes
push_ranges out [] = out
push_ranges out (r ∷ rs) = push_ranges (write_u32 (write_u32 out r.start_gen) r.end_gen) rs

-- What stands in front of the checksum.
unfoldable pub manifest_body : ManifestData → Bytes
unfolding push_ranges
manifest_body manifest =
    let range_count = to_u16 (length manifest.ranges) in
    let header_bytes = to_u16 (manifest_fixed_bytes + range_count * 8) in
    let out = write_u32 [] manifest_magic in
    let out = write_u16 out manifest_version in
    let out = write_u16 out header_bytes in
    let out = write_u32 out manifest.epoch in
    let out = write_u32 out manifest.next_generation in
    let out = write_u16 out range_count in
    let out = push_ranges out manifest.ranges in write_u32 out manifest.tail_generation

unfoldable pub serialise_manifest : ManifestData → Bytes
unfolding manifest_body
serialise_manifest manifest =
    let out = manifest_body manifest in write_u32 (write_u32 out (crc32 0 out)) footer_magic

-- The lambdas `leU32` and `leU16`: the value at the cursor, and the cursor behind it.
unfoldable pub le_u32 : Bytes → ℕ → Option (ℕ × ℕ)
le_u32 bytes o = read_u32 bytes o >>= λ v. some (v, o + 4)

unfoldable pub le_u16 : Bytes → ℕ → Option (ℕ × ℕ)
le_u16 bytes o = read_u16 bytes o >>= λ v. some (v, o + 2)

unfoldable pub parse_ranges : ℕ → Bytes → ℕ → Option (List ManifestRange × ℕ)
parse_ranges zero bytes o = some ([], o)
parse_ranges (suc n) bytes o = do
  (start_gen, o) ← le_u32 bytes o
  (end_gen, o) ← le_u32 bytes o
  guard (not (start_gen == 0))
  guard (not (ltb end_gen start_gen))
  (rs, o) ← parse_ranges n bytes o
  some (record { start_gen = start_gen; end_gen = end_gen } ∷ rs, o)

-- Each guard is the negation of a `return false` in the source.
unfoldable pub parse_manifest : Bytes → Option ManifestData
parse_manifest bytes = do
  guard (not (ltb (length bytes) manifest_fixed_bytes))
  (magic, o) ← le_u32 bytes 0
  (version, o) ← le_u16 bytes o
  (header_bytes, o) ← le_u16 bytes o
  guard (magic == manifest_magic)
  guard (version == manifest_version)
  (epoch, o) ← le_u32 bytes o
  (next_generation, o) ← le_u32 bytes o
  (range_count, o) ← le_u16 bytes o
  guard (not (ltb manifest_max_ranges range_count))
  guard (header_bytes == to_u16 (manifest_fixed_bytes + range_count * 8))
  guard (length bytes == header_bytes)
  (ranges, o) ← parse_ranges range_count bytes o
  (tail_generation, o) ← le_u32 bytes o
  guard (not (tail_generation == 0 && not (range_count == 0)))
  let computed_crc = crc32 0 (take o bytes)
  (stored_crc, o) ← le_u32 bytes o
  guard (stored_crc == computed_crc)
  (footer, o) ← le_u32 bytes o
  guard (footer == footer_magic)
  some (record {
    epoch = epoch;
    next_generation = next_generation;
    ranges = ranges;
    tail_generation = tail_generation;
  })
