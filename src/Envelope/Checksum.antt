-- ===== src/Envelope/Checksum.antt =====
-- The envelope's checksum and the log's are the same function.
use pqueue.Base.{ℕ, ◌/◌, ◌^◌, ◌≡◌, refl, ap, ◌∙◌, [], ◌∷◌, bit_and, bit_xor, get_or}
use pqueue.Base.Bits.{bit_xor_comm}
use pqueue.Bytes.{Bytes}
use pqueue.Crc.{crc_table, crc_byte, crc_loop, not_u32, table_from, repeat}
use pqueue.Envelope
use pqueue.Crc
use pqueue.Envelope.{crc32_table, checksum_byte, checksum_loop, masked_bit}

tables_agree : crc32_table ≡ crc_table
unfolding crc32_table crc_table
tables_agree = refl

checksum_byte-crc_byte : (c b : ℕ) → checksum_byte c b ≡ crc_byte c b
unfolding checksum_byte crc_byte
checksum_byte-crc_byte c b =
    bit_xor_comm (c / 2 ^ 8) (get_or crc32_table (bit_and (bit_xor c b) 0xff) 0)
    ∙ ap (λ t. bit_xor (get_or t (bit_and (bit_xor c b) 0xff) 0) (c / 2 ^ 8)) tables_agree

checksum_loop-crc_loop : (c : ℕ) (bytes : Bytes) → checksum_loop c bytes ≡ crc_loop c bytes
unfolding checksum_loop crc_loop
checksum_loop-crc_loop c [] = refl
checksum_loop-crc_loop c (b ∷ bytes) =
    checksum_loop-crc_loop (checksum_byte c b) bytes
    ∙ ap (λ k. crc_loop k bytes) (checksum_byte-crc_byte c b)

-- The checksum of an envelope is the log's checksum with the initial value 0, though the two parts
-- build their tables by different formulas.
pub crc32_agree : (bytes : Bytes) → Envelope.crc32 bytes ≡ Crc.crc32 0 bytes
unfolding Envelope.crc32 Crc.crc32
crc32_agree bytes = ap not_u32 (checksum_loop-crc_loop 0xffff_ffff bytes)
