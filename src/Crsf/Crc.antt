-- ===== src/Crsf/Crc.antt =====
-- The CRC of CRSF frames (`crsfCrcAccumulate`): polynomial 0xD5, bit by bit.
use sky_sweep.Prelude.{ℕ, zero, suc, ◌*◌, bit_and, bit_xor, [], ◌∷◌, if◌then◌else◌, ◌==◌, u8, Bytes}

-- One round of the inner loop; the shift is cast back to a byte.
unfoldable pub crc_bit : ℕ → ℕ
crc_bit crc = if bit_and crc 0x80 == 0 then u8 (crc * 2) else u8 (bit_xor (crc * 2) 0xD5)

unfoldable pub crc_bits : ℕ → ℕ → ℕ
unfolding crc_bit
crc_bits zero crc = crc
crc_bits (suc n) crc = crc_bits n (crc_bit crc)

unfoldable pub crc_accumulate : ℕ → ℕ → ℕ
unfolding crc_bits
crc_accumulate crc byte = crc_bits 8 (bit_xor crc byte)

-- The CRC of a run of bytes, from a given start.
abbrev pub crc_over : ℕ → Bytes → ℕ
crc_over crc [] = crc
crc_over crc (b ∷ bs) = crc_over (crc_accumulate crc b) bs
