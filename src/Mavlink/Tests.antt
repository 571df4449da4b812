-- ===== src/Mavlink/Tests.antt =====
-- Tests of the MAVLink parser, and its theorems at concrete inputs.
use sky_sweep.Prelude.{
  ℕ, ◌≡◌, refl, Bool, true, Option, none, some, [], ◌∷◌, ◌++◌, arith, Bytes, IsByte, All, replicate,
  store, copy,
}
use sky_sweep.Prelude.Int.{pos}
use sky_sweep.Mavlink.Crc.{crc_accumulate, crc_tmp, crc_mix, crc_extra}
use sky_sweep.Mavlink.Parser.{
  Packet, Parser, new_parser, parse_byte, parse_buffer, append_byte, check_length, complete_frame,
  validate_checksum, checksum_with, checksum_loop, header_crc,
}
use sky_sweep.Mavlink.Frame.{Header, wire, scan, IsValid, collected}
use sky_sweep.Mavlink.Stream.{Scans, parse_buffer-scan, start-IsValid}
use sky_sweep.Mavlink.Delivery.{Delivers, IsGenuine, parse_buffer-frame, parse_buffer-IsGenuine}

abbrev header : Header
header = record { seq = 7; sysid = 1; compid = 1; msgid = 0 }

abbrev heartbeat : Bytes
heartbeat = 2 ∷ 3 ∷ 81 ∷ 0 ∷ 0 ∷ 0 ∷ 0 ∷ 4 ∷ 3 ∷ []

-- The wire form of the heartbeat, behind a byte of noise.
abbrev stream : Bytes
stream = 17 ∷ 0xFE ∷ 9 ∷ 7 ∷ 1 ∷ 1 ∷ 0 ∷ 2 ∷ 3 ∷ 81 ∷ 0 ∷ 0 ∷ 0 ∷ 0 ∷ 4 ∷ 3 ∷ 178 ∷ 64 ∷ []

stream_lem : 17 ∷ wire header heartbeat 50 ≡ stream
unfolding crc_accumulate crc_tmp crc_mix
stream_lem = refl

stream_bytes : All IsByte stream
stream_bytes = ground arith

bytes : All IsByte (wire header heartbeat 50 ++ 5 ∷ [])
unfolding crc_accumulate crc_tmp crc_mix
bytes = ground arith

known : crc_extra 0 ≡ pos 50
unfolding crc_extra
known = refl

abbrev parser_of : Option (Bool × Parser) → Parser
parser_of none = new_parser
parser_of (some (_, p)) = p

heard : Parser
heard = parser_of (parse_buffer new_parser stream)

heard_lem : parse_buffer new_parser stream ≡ some (true, heard)
unfolding heard parse_buffer parse_byte append_byte check_length complete_frame validate_checksum
    checksum_with checksum_loop header_crc crc_accumulate crc_tmp crc_mix crc_extra store copy
heard_lem = refl

parse_buffer-scan_example : Scans (scan [] stream) (parse_buffer new_parser stream)
parse_buffer-scan_example = parse_buffer-scan stream new_parser stream_bytes start-IsValid

parse_buffer-frame_example :
    (q : Parser) × (parse_buffer new_parser (wire header heartbeat 50 ++ 5 ∷ []) ≡ some (true, q))
    × Delivers header heartbeat q
    × IsValid q
    × (collected q ≡ [])
parse_buffer-frame_example =
    parse_buffer-frame header heartbeat (5 ∷ []) 50 new_parser known bytes start-IsValid refl

parse_buffer-IsGenuine_example : IsGenuine heard.current_packet
parse_buffer-IsGenuine_example =
    parse_buffer-IsGenuine stream new_parser heard stream_bytes start-IsValid heard_lem

abbrev packet_of : ℕ → Packet
packet_of stale = record {
  magic = 0xFE;
  len = 9;
  seq = 7;
  sysid = 1;
  compid = 1;
  msgid = 0;
  payload = heartbeat ++ replicate 246 stale;
  checksum = 0;
  valid = true;
}
