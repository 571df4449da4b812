-- ===== src/Crsf/Relation.antt =====
-- What it means that the buffer and index of `CRSFParser` stand for the bytes of Crsf/Frame.
use sky_sweep.Prelude.{◌+◌, ◌-◌, ◌<◌, ◌≡◌, Bool, Option, none, some, Bytes, length, get_or, take}
use sky_sweep.Crsf.Parser.{Packet, Parser, payload_size_max, max_packet_size}
use sky_sweep.Crsf.Frame.{IsPartial, accepted, is_intact, type_of, payload_of}

-- The bytes of the frame that is being received.
abbrev pub collected : Parser → Bytes
collected p = take p.rx_index p.rx_buffer

-- The sizes of the two arrays, and what the index says of the buffer.
pub record IsValid (p : Parser) : Type 0 where
  pub buffer_size : length p.rx_buffer ≡ max_packet_size
  pub payload_size : length p.current_packet.payload ≡ payload_size_max
  pub index_in : p.rx_index < max_packet_size
  pub partial : IsPartial (collected p)

-- What the packet of the parser is after a byte: as before, or the frame that was completed.
pub record Holds (f : Bytes) (packet : Packet) : Type 0 where
  pub address : packet.address ≡ get_or f 0 0
  pub length : packet.length ≡ get_or f 1 0
  pub type : packet.type ≡ type_of f
  pub payload : take (get_or f 1 0 - 2) packet.payload ≡ payload_of f
  pub crc : packet.crc ≡ get_or f (1 + get_or f 1 0) 0
  pub valid : packet.valid ≡ is_intact f

abbrev pub Describes : Option Bytes → Packet → Packet → Type 0
Describes none old new = new ≡ old
Describes (some f) old new = Holds f new

-- `result` is a normal return, in a valid state that stands for what the receiver keeps.
pub record Refines (old : Packet) (r : Bytes × Option Bytes) (result : Option (Bool × Parser))
    : Type 0 where
  pub next : Parser
  pub returns : result ≡ some (accepted r.1, next)
  pub valid : IsValid next
  pub keeps : collected next ≡ r.0
  pub packet : Describes r.1 old next.current_packet
