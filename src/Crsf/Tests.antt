-- ===== src/Crsf/Tests.antt =====
-- Tests of the CRSF parser, and its theorems at concrete inputs.
use sky_sweep.Prelude.{
  ℕ, zero, suc, ◌/◌, ◌%◌, ◌≡◌, refl, Bool, true, Option, none, some, List, [], ◌∷◌, ◌++◌, arith,
  Bytes, replicate, store, copy, ◌↔◌, ◌≢◌,
}
use sky_sweep.Crsf.Crc.{crc_accumulate, crc_bits, crc_bit}
use sky_sweep.Crsf.Parser.{
  Packet, Parser, new_parser, parse_byte, parse_buffer, append_byte, check_length, wrap_index,
  complete_frame, validate_crc, crc_loop,
}
use sky_sweep.Crsf.Frame.{wire, scan}
use sky_sweep.Crsf.Relation.{IsValid, collected}
use sky_sweep.Crsf.Stream.{Scans, parse_buffer-Scans, new_parser-IsValid}
use sky_sweep.Crsf.Delivery.{Heard, Delivers, parse_buffer-wire, parse_buffer_sound}
use sky_sweep.Crsf.Decode.{parse_link_stats, parse_rc_channels}
use sky_sweep.Crsf.Channels.{packed, parse_rc_channels-packed}
use sky_sweep.Crsf.LinkStats.{SameFrame, parse_link_stats_stale}

-- The LINK_STATS payload of the host tests: uplink RSSI 42, downlink SNR -7.
abbrev link_payload : Bytes
link_payload = 42 ∷ 0 ∷ 0 ∷ 0 ∷ 0 ∷ 0 ∷ 0 ∷ 0 ∷ 0 ∷ 249 ∷ []

abbrev noise : Bytes
noise = 1 ∷ 0xC8 ∷ 0xFF ∷ 7 ∷ []

abbrev stream : Bytes
stream = noise ++ wire 0x14 link_payload

abbrev parser_of : Option (Bool × Parser) → Parser
parser_of none = new_parser
parser_of (some (_, p)) = p

heard : Parser
heard = parser_of (parse_buffer new_parser stream)

heard_lem : parse_buffer new_parser stream ≡ some (true, heard)
unfolding heard parse_buffer parse_byte append_byte check_length wrap_index complete_frame
    validate_crc crc_loop crc_accumulate crc_bits crc_bit store copy
heard_lem = refl

heard_stats : heard.current_packet.type ≡ 0x14
unfolding heard parse_buffer parse_byte append_byte check_length wrap_index complete_frame
    validate_crc crc_loop crc_accumulate crc_bits crc_bit store copy
heard_stats = refl

-- A length byte of 255 is refused at once.
hostile_length : collected (parser_of (parse_buffer new_parser (0xC8 ∷ 0xFF ∷ 0xAB ∷ []))) ≡ []
unfolding parse_buffer parse_byte append_byte check_length wrap_index store
hostile_length = refl

parse_buffer-Scans_example : Scans (scan [] stream) (parse_buffer new_parser stream)
parse_buffer-Scans_example = parse_buffer-Scans stream new_parser new_parser-IsValid

parse_buffer-wire_example :
    (q : Parser) × (parse_buffer new_parser (wire 0x14 link_payload ++ 5 ∷ []) ≡ some (true, q))
    × Delivers 0x14 link_payload q
    × IsValid q
    × (collected q ≡ [])
parse_buffer-wire_example =
    parse_buffer-wire 0x14 link_payload (5 ∷ []) new_parser new_parser-IsValid refl (omega arith)

parse_buffer_sound_example : Heard stream heard
parse_buffer_sound_example =
    parse_buffer_sound stream new_parser heard new_parser-IsValid refl heard_lem

-- Sixteen channels, all in the middle but the first and the last.
abbrev sticks : List ℕ
sticks = 172 ∷ (replicate 14 992 ++ 1811 ∷ [])

abbrev packet_of : ℕ → Bytes → Packet
packet_of n payload = record {
  address = 0xC8;
  length = n;
  type = 0x16;
  payload = payload;
  crc = 0;
  valid = true;
}

-- The little-endian bytes of a number.
abbrev bytes_of : ℕ → ℕ → Bytes
bytes_of zero w = []
bytes_of (suc n) w = (w % 256) ∷ bytes_of n (w / 256)

abbrev sticks_packet : Packet
sticks_packet = packet_of 24 (bytes_of 60 (packed sticks 5))

parse_rc_channels-packed_example : parse_rc_channels sticks_packet ≡ some sticks
parse_rc_channels-packed_example =
    parse_rc_channels-packed sticks_packet sticks 5 (omega arith) refl (omega arith) refl
      (omega arith) refl

abbrev short_packet : Packet
short_packet = packet_of 11 (replicate 9 1 ++ 249 ∷ replicate 50 0)

parse_link_stats_stale_example :
    ((q : Packet) → SameFrame short_packet q → parse_link_stats short_packet ≡ parse_link_stats q)
    ↔ (short_packet.length ≢ 11)
parse_link_stats_stale_example = parse_link_stats_stale short_packet refl
