-- ===== src/Mavlink/Parser.antt =====
-- The byte-wise receiver `MAVLinkParser`. The member functions return the new parser; an access
-- outside an array is the fault `none`.
use sky_sweep.Prelude.{
  ℕ, zero, suc, ◌+◌, ◌*◌, Bool, true, false, ◌&&◌, Option, some, [], ◌∷◌, if◌then◌else◌, ◌==◌, ltb,
  leb, u8, u16, Bytes, replicate, load, store, copy, ◌>>=◌, bit_or,
}
use sky_sweep.Prelude.Int.{ℤ, pos, negsuc}
use sky_sweep.Mavlink.Crc.{crc_accumulate, crc_extra}

abbrev pub stx_v1 : ℕ
stx_v1 = 0xFE

abbrev pub rx_buffer_size : ℕ
rx_buffer_size = 280

abbrev pub max_payload_len : ℕ
max_payload_len = 255

-- `MAVLinkPacket`
pub record Packet : Type 0 where
  pub magic : ℕ
  pub len : ℕ
  pub seq : ℕ
  pub sysid : ℕ
  pub compid : ℕ
  pub msgid : ℕ
  pub payload : Bytes
  pub checksum : ℕ
  pub valid : Bool

-- The fields of `MAVLinkParser`.
pub record Parser : Type 0 where
  pub rx_buffer : Bytes
  pub rx_index : ℕ
  pub current_packet : Packet

abbrev empty_packet : Packet
empty_packet = record {
  magic = 0;
  len = 0;
  seq = 0;
  sysid = 0;
  compid = 0;
  msgid = 0;
  payload = replicate max_payload_len 0;
  checksum = 0;
  valid = false;
}

-- The constructor.
abbrev pub new_parser : Parser
new_parser = record {
  rx_buffer = replicate rx_buffer_size 0;
  rx_index = 0;
  current_packet = empty_packet;
}

-- The loop of `validateChecksum` from index `i`, with the rounds that are left.
unfoldable pub checksum_loop : ℕ → ℕ → ℕ → Bytes → Option ℕ
checksum_loop zero i crc payload = some crc
checksum_loop (suc n) i crc payload =
    load payload i >>= λ b. checksum_loop n (suc i) (crc_accumulate crc b) payload

-- The five header bytes.
unfoldable pub header_crc : Packet → ℕ
header_crc packet =
    crc_accumulate
      (crc_accumulate
        (crc_accumulate (crc_accumulate (crc_accumulate 0xFFFF packet.len) packet.seq) packet.sysid)
        packet.compid)
      packet.msgid

-- `validateChecksum` once `crcExtra` is known.
unfoldable pub checksum_with : ℤ → Packet → Option Bool
checksum_with (negsuc _) packet = some false
checksum_with (pos extra) packet = do
  crc ← checksum_loop packet.len 0 (header_crc packet) packet.payload
  some (crc_accumulate crc (u8 extra) == packet.checksum)

unfoldable pub validate_checksum : Packet → Option Bool
validate_checksum packet = checksum_with (crc_extra packet.msgid) packet

-- A whole frame is in the buffer: it is copied out and checked.
unfoldable pub complete_frame : Parser → Option (Bool × Parser)
complete_frame p = do
  magic ← load p.rx_buffer 0
  len ← load p.rx_buffer 1
  seq ← load p.rx_buffer 2
  sysid ← load p.rx_buffer 3
  compid ← load p.rx_buffer 4
  msgid ← load p.rx_buffer 5
  payload ← copy p.current_packet.payload p.rx_buffer 6 len
  low ← load p.rx_buffer (6 + len)
  high ← load p.rx_buffer (7 + len)
  let packet = record p.current_packet {
    magic = magic;
    len = len;
    seq = seq;
    sysid = sysid;
    compid = compid;
    msgid = msgid;
    payload = payload;
    checksum = u16 (bit_or low (high * 256));
  }
  valid ← validate_checksum packet
  some (valid, record p { rx_index = 0; current_packet = record packet { valid = valid } })

-- `rxIndex >= 6`: the expected length is compared.
unfoldable pub check_length : Parser → Option (Bool × Parser)
check_length p = do
  len ← load p.rx_buffer 1
  if leb (u16 (8 + len)) p.rx_index then complete_frame p else some (false, p)

-- `rxBuffer[rxIndex++] = byte`
unfoldable pub append_byte : Parser → ℕ → Option Parser
append_byte p byte = do
  buffer ← store p.rx_buffer p.rx_index byte
  some (record p { rx_buffer = buffer; rx_index = u16 (p.rx_index + 1) })

unfoldable pub parse_byte : Parser → ℕ → Option (Bool × Parser)
parse_byte p byte =
    if p.rx_index == 0 && byte == stx_v1
    then (do q ← append_byte p byte; some (false, q))
    else if ltb 0 p.rx_index && ltb p.rx_index rx_buffer_size
    then (do q ← append_byte p byte; if leb 6 q.rx_index then check_length q else some (false, q))
    else some (false, p)

-- What `parseBuffer` does after a byte: return, or go on with the rest.
abbrev pub unless_found : Bool → Parser → (Parser → Option (Bool × Parser)) → Option (Bool × Parser)
unless_found true p rest = some (true, p)
unless_found false p rest = rest p

unfoldable pub parse_buffer : Parser → Bytes → Option (Bool × Parser)
parse_buffer p [] = some (false, p)
parse_buffer p (b ∷ bs) =
    parse_byte p b >>= λ (found, q). unless_found found q (λ r. parse_buffer r bs)
