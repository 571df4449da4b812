-- ===== src/Mavlink/Crc.antt =====
-- The X.25 checksum of MAVLink frames and its extra byte per message
-- (`mavlinkCrcAccumulate`, `mavlinkCrcExtra`).
use sky_sweep.Prelude.{
  ℕ, ◌*◌, ◌/◌, ◌<◌, arith, bit_and, bit_xor, [], ◌∷◌, if◌then◌else◌, ◌==◌, u8, u16, Bytes,
}
use sky_sweep.Prelude.Int.{ℤ, pos, negsuc}

-- -1 for a message that the parser does not know.
unfoldable pub crc_extra : ℕ → ℤ
crc_extra message_id =
    if message_id == 0
    then pos 50
    else if message_id == 1
    then pos 124
    else if message_id == 2
    then pos 137
    else if message_id == 24
    then pos 24
    else if message_id == 30
    then pos 39
    else if message_id == 33
    then pos 104
    else if message_id == 35
    then pos 244
    else if message_id == 76
    then pos 152
    else if message_id == 77
    then pos 143
    else negsuc 0

-- `tmp ^= static_cast<uint8_t>(tmp << 4)`
unfoldable pub crc_tmp : ℕ → ℕ
crc_tmp tmp = bit_xor tmp (u8 (tmp * 16))

unfoldable pub crc_mix : ℕ → ℕ → ℕ
crc_mix crc tmp = u16 (bit_xor (bit_xor (bit_xor (crc / 256) (tmp * 256)) (tmp * 8)) (tmp / 16))

unfoldable pub crc_accumulate : ℕ → ℕ → ℕ
crc_accumulate crc byte = crc_mix crc (crc_tmp (bit_xor byte (u8 (bit_and crc 0xFF))))

-- The CRC of a run of bytes, from a given start.
abbrev pub crc_over : ℕ → Bytes → ℕ
crc_over crc [] = crc
crc_over crc (b ∷ bs) = crc_over (crc_accumulate crc b) bs

pub crc_accumulate-bounded : (crc byte : ℕ) → crc_accumulate crc byte < 65536
unfolding crc_accumulate crc_mix
crc_accumulate-bounded crc byte = omega arith

pub crc_over-bounded : (bs : Bytes) (crc : ℕ) → crc < 65536 → crc_over crc bs < 65536
crc_over-bounded [] crc h = h
crc_over-bounded (b ∷ bs) crc h =
    crc_over-bounded bs (crc_accumulate crc b) (crc_accumulate-bounded crc b)
