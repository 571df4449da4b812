-- ===== src/Crsf/Parser.antt =====
-- The byte-wise receiver `CRSFParser`. The member functions return the new parser; an access
-- outside an array is the fault `none`.
use sky_sweep.Prelude.{
  ℕ, zero, suc, ◌+◌, ◌-◌, Bool, true, false, ◌&&◌, ◌||◌, Option, some, [], ◌∷◌, if◌then◌else◌, ◌==◌,
  ltb, leb, u8, Bytes, replicate, load, store, copy, ◌>>=◌,
}
use sky_sweep.Crsf.Crc.{crc_accumulate}

abbrev pub sync_byte : ℕ
sync_byte = 0xC8

abbrev pub max_packet_size : ℕ
max_packet_size = 64

abbrev pub payload_size_max : ℕ
payload_size_max = 60

-- `CRSFPacket`
pub record Packet : Type 0 where
  pub address : ℕ
  pub length : ℕ
  pub type : ℕ
  pub payload : Bytes
  pub crc : ℕ
  pub valid : Bool

-- The fields of `CRSFParser`.
pub record Parser : Type 0 where
  pub rx_buffer : Bytes
  pub rx_index : ℕ
  pub current_packet : Packet

abbrev empty_packet : Packet
empty_packet = record {
  address = 0;
  length = 0;
  type = 0;
  payload = replicate payload_size_max 0;
  crc = 0;
  valid = false;
}

-- The constructor.
abbrev pub new_parser : Parser
new_parser = record {
  rx_buffer = replicate max_packet_size 0;
  rx_index = 0;
  current_packet = empty_packet;
}

-- The loop of `validateCRC` from index `i`, with the rounds that are left.
unfoldable pub crc_loop : ℕ → ℕ → ℕ → Bytes → Option ℕ
crc_loop zero i crc payload = some crc
crc_loop (suc n) i crc payload =
    load payload i >>= λ b. crc_loop n (suc i) (crc_accumulate crc b) payload

unfoldable pub validate_crc : Packet → Option Bool
validate_crc packet = do
  crc ← crc_loop (u8 (packet.length + 256 - 2)) 0 (crc_accumulate 0 packet.type) packet.payload
  some (crc == packet.crc)

-- The last `if` of `parseByte`.
unfoldable pub wrap_index : Parser → Parser
wrap_index p = if leb max_packet_size p.rx_index then record p { rx_index = 0 } else p

-- A whole frame is in the buffer: it is copied out and checked.
unfoldable pub complete_frame : Parser → Option (Bool × Parser)
complete_frame p = do
  address ← load p.rx_buffer 0
  length ← load p.rx_buffer 1
  type ← load p.rx_buffer 2
  payload ← copy p.current_packet.payload p.rx_buffer 3 (u8 (length + 256 - 2))
  crc ← load p.rx_buffer (1 + length)
  let packet = record p.current_packet {
    address = address;
    length = length;
    type = type;
    payload = payload;
    crc = crc;
  }
  valid ← validate_crc packet
  some (valid, record p { rx_index = 0; current_packet = record packet { valid = valid } })

-- `rxIndex >= 3`: the length byte is there and decides.
unfoldable pub check_length : Parser → Option (Bool × Parser)
check_length p = do
  len ← load p.rx_buffer 1
  if ltb len 2 || ltb payload_size_max (len - 2)
      then some (false, record p { rx_index = 0 })
      else if leb (len + 2) p.rx_index
      then complete_frame p
      else some (false, wrap_index p)

-- `rxBuffer[rxIndex++] = byte`
unfoldable pub append_byte : Parser → ℕ → Option Parser
append_byte p byte = do
  buffer ← store p.rx_buffer p.rx_index byte
  some (record p { rx_buffer = buffer; rx_index = u8 (p.rx_index + 1) })

unfoldable pub parse_byte : Parser → ℕ → Option (Bool × Parser)
parse_byte p byte =
    if p.rx_index == 0 && byte == sync_byte
    then (do q ← append_byte p byte; some (false, q))
    else if ltb 0 p.rx_index && ltb p.rx_index max_packet_size
    then (do
      q ← append_byte p byte
      if leb 3 q.rx_index then check_length q else some (false, wrap_index q))
    else some (false, wrap_index p)

-- What `parseBuffer` does after a byte: return, or go on with the rest.
abbrev pub unless_found : Bool → Parser → (Parser → Option (Bool × Parser)) → Option (Bool × Parser)
unless_found true p rest = some (true, p)
unless_found false p rest = rest p

unfoldable pub parse_buffer : Parser → Bytes → Option (Bool × Parser)
parse_buffer p [] = some (false, p)
parse_buffer p (b ∷ bs) =
    parse_byte p b >>= λ (found, q). unless_found found q (λ r. parse_buffer r bs)
