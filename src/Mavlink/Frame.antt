-- ===== src/Mavlink/Frame.antt =====
-- What the MAVLink receiver is meant to do, with no buffer and no index: it collects the bytes of a
-- frame in a list. And what it means that the parser stands for these bytes.
use sky_sweep.Prelude.{
  ℕ, ◌+◌, ◌*◌, ◌/◌, ◌%◌, ◌<◌, ◌≡◌, ◌⊎◌, Bool, false, Option, none, some, [], ◌∷◌, ◌++◌,
  if◌then◌else◌, ◌==◌, ltb, leb, Bytes, IsByte, length, get_or, take, drop, u16, bit_or,
}
use sky_sweep.Prelude.Int.{ℤ, pos, negsuc}
use sky_sweep.Mavlink.Crc.{crc_over, crc_extra}
use sky_sweep.Mavlink.Parser.{Packet, Parser, stx_v1, rx_buffer_size, max_payload_len}

-- Sequence number, system, component and message identifier.
pub record Header : Type 0 where
  pub seq : ℕ
  pub sysid : ℕ
  pub compid : ℕ
  pub msgid : ℕ

-- The checksum that MAVLink prescribes, with the extra byte of the message.
abbrev pub checksum_of : Header → Bytes → ℕ → ℕ
checksum_of h payload extra =
    crc_over 0xFFFF
      (length payload ∷ h.seq ∷ h.sysid ∷ h.compid ∷ h.msgid ∷ (payload ++ extra ∷ []))

abbrev pub wire : Header → Bytes → ℕ → Bytes
wire h payload extra =
    let c = checksum_of h payload extra in
    stx_v1
    ∷ length payload
    ∷ h.seq
    ∷ h.sysid
    ∷ h.compid
    ∷ h.msgid
    ∷ (payload ++ (c % 256) ∷ (c / 256) ∷ [])

abbrev pub header_of : Bytes → Header
header_of f = record {
  seq = get_or f 2 0;
  sysid = get_or f 3 0;
  compid = get_or f 4 0;
  msgid = get_or f 5 0;
}

abbrev pub payload_of : Bytes → Bytes
payload_of f = take (get_or f 1 0) (drop 6 f)

abbrev pub checksum_in : Bytes → ℕ
checksum_in f = u16 (bit_or (get_or f (6 + get_or f 1 0) 0) (get_or f (7 + get_or f 1 0) 0 * 256))

-- The checksum over the fields of a frame.
abbrev pub sum_of : Bytes → Bytes → ℕ → ℕ
sum_of f payload extra = crc_over 0xFFFF (
    get_or f 1 0
    ∷ get_or f 2 0
    ∷ get_or f 3 0
    ∷ get_or f 4 0
    ∷ get_or f 5 0
    ∷ (payload ++ extra ∷ []))

-- The message is a known one, and the last two bytes are the checksum.
abbrev pub matches : ℤ → Bytes → Bool
matches (negsuc _) f = false
matches (pos extra) f = sum_of f (payload_of f) extra == checksum_in f

abbrev pub is_intact : Bytes → Bool
is_intact f = matches (crc_extra (get_or f 5 0)) f

-- The bytes kept after one more byte, and the frame that it completes, if it does.
abbrev pub receive_more : Bytes → Bytes × Option Bytes
receive_more f =
    if ltb (length f) 6
    then (f, none)
    else if leb (8 + get_or f 1 0) (length f)
    then ([], some f)
    else (f, none)

unfoldable pub receive : Bytes → ℕ → Bytes × Option Bytes
receive [] b = if b == stx_v1 then (b ∷ [], none) else ([], none)
receive (c ∷ cs) b = receive_more (c ∷ (cs ++ b ∷ []))

abbrev pub accepted : Option Bytes → Bool
accepted none = false
accepted (some f) = is_intact f

-- The stream up to and with the first intact frame: what is kept, and that frame.
abbrev pub scan_after : Bytes × Option Bytes → (Bytes → Bytes × Option Bytes) → Bytes × Option Bytes
scan_after (kept, none) rest = rest kept
scan_after (kept, some f) rest = if is_intact f then (kept, some f) else rest kept

unfoldable pub scan : Bytes → Bytes → Bytes × Option Bytes
scan kept [] = (kept, none)
scan kept (b ∷ bs) = scan_after (receive kept b) (λ k. scan k bs)

-- The bytes of the frame that is being received.
abbrev pub collected : Parser → Bytes
collected p = take p.rx_index p.rx_buffer

-- The sizes of the two arrays; a frame that has begun is not complete.
pub record IsValid (p : Parser) : Type 0 where
  pub buffer_size : length p.rx_buffer ≡ rx_buffer_size
  pub payload_size : length p.current_packet.payload ≡ max_payload_len
  pub packet_len : IsByte p.current_packet.len
  pub index_in : p.rx_index < rx_buffer_size
  pub len_byte : (p.rx_index < 2) ⊎ IsByte (get_or p.rx_buffer 1 0)
  pub incomplete : (p.rx_index < 6) ⊎ (p.rx_index < 8 + get_or p.rx_buffer 1 0)

-- The packet of the parser is that of a frame.
pub record Holds (f : Bytes) (packet : Packet) : Type 0 where
  pub len : packet.len ≡ get_or f 1 0
  pub seq : packet.seq ≡ get_or f 2 0
  pub sysid : packet.sysid ≡ get_or f 3 0
  pub compid : packet.compid ≡ get_or f 4 0
  pub msgid : packet.msgid ≡ get_or f 5 0
  pub payload : take (get_or f 1 0) packet.payload ≡ payload_of f
  pub checksum : packet.checksum ≡ checksum_in f
  pub valid : packet.valid ≡ is_intact f

abbrev pub Describes : Option Bytes → Packet → Packet → Type 0
Describes none old new = new ≡ old
Describes (some f) old new = Holds f new

-- `result` is a normal return, in a valid state that stands for what the receiver keeps.
pub record Refines (old : Packet) (r : Bytes × Option Bytes) (result : Option (Bool × Parser))
    : Type 0 where
  pub next : Parser
  pub returns : result ≡ some (accepted r.1, next)
  pub valid : IsValid next
  pub keeps : collected next ≡ r.0
  pub packet : Describes r.1 old next.current_packet
