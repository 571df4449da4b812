-- ===== src/Crsf/Decode.antt =====
-- The payload decoders of `CRSFParser`. They read an array of 60 bytes, of which only the first
-- `length - 2` came with the frame.
use sky_sweep.Prelude.{
  ℕ, zero, suc, ◌+◌, ◌-◌, ◌*◌, ◌/◌, ◌%◌, ◌^◌, Bool, Option, some, List, [], ◌∷◌, if◌then◌else◌,
  ◌==◌, ltb, leb, u8, u16, Bytes, load, le_number, ◌>>=◌, bit_and, bit_or, replicate, copy,
}
use sky_sweep.Prelude.Int.{ℤ, pos, signed8, signed32, neg}
use sky_sweep.Crsf.Parser.{Packet}

pub record LinkStats : Type 0 where
  pub uplink_rssi_1 : ℕ
  pub uplink_rssi_2 : ℕ
  pub uplink_link_quality : ℕ
  pub uplink_snr : ℤ
  pub active_antenna : ℕ
  pub rf_mode : ℕ
  pub uplink_tx_power : ℕ
  pub downlink_rssi : ℕ
  pub downlink_link_quality : ℕ
  pub downlink_snr : ℤ

pub record Gps : Type 0 where
  pub latitude : ℤ
  pub longitude : ℤ
  pub groundspeed : ℕ
  pub heading : ℕ
  pub altitude : ℕ
  pub satellites : ℕ

-- The frame types that the parser names.
abbrev pub frametype_gps : ℕ
frametype_gps = 0x02

abbrev pub frametype_battery : ℕ
frametype_battery = 0x08

abbrev pub frametype_link_stats : ℕ
frametype_link_stats = 0x14

abbrev pub frametype_rc_channels : ℕ
frametype_rc_channels = 0x16

abbrev pub frametype_attitude : ℕ
frametype_attitude = 0x1E

abbrev pub frametype_flight_mode : ℕ
frametype_flight_mode = 0x21

unfoldable pub is_link_stats : Packet → Bool
is_link_stats packet = packet.type == frametype_link_stats

unfoldable pub is_gps : Packet → Bool
is_gps packet = packet.type == frametype_gps

unfoldable pub is_rc_channels : Packet → Bool
is_rc_channels packet = packet.type == frametype_rc_channels

abbrev pub zero_link_stats : LinkStats
zero_link_stats = record {
  uplink_rssi_1 = 0;
  uplink_rssi_2 = 0;
  uplink_link_quality = 0;
  uplink_snr = pos 0;
  active_antenna = 0;
  rf_mode = 0;
  uplink_tx_power = 0;
  downlink_rssi = 0;
  downlink_link_quality = 0;
  downlink_snr = pos 0;
}

-- The ten assignments of `parseLinkStats`.
unfoldable pub read_link_stats : Bytes → Option LinkStats
read_link_stats payload = do
  rssi_1 ← load payload 0
  rssi_2 ← load payload 1
  quality ← load payload 2
  snr ← load payload 3
  antenna ← load payload 4
  mode ← load payload 5
  power ← load payload 6
  down_rssi ← load payload 7
  down_quality ← load payload 8
  down_snr ← load payload 9
  some (record {
    uplink_rssi_1 = rssi_1;
    uplink_rssi_2 = rssi_2;
    uplink_link_quality = quality;
    uplink_snr = signed8 snr;
    active_antenna = antenna;
    rf_mode = mode;
    uplink_tx_power = power;
    downlink_rssi = down_rssi;
    downlink_link_quality = down_quality;
    downlink_snr = signed8 down_snr;
  })

unfoldable pub parse_link_stats : Packet → Option LinkStats
parse_link_stats packet =
    if leb 11 packet.length then read_link_stats packet.payload else some zero_link_stats

-- `memcpy` of `n` payload bytes from index `i` into a number of the little-endian target.
unfoldable pub read_word : Bytes → ℕ → ℕ → Option ℕ
read_word payload i n = copy (replicate n 0) payload i n >>= λ word. some (le_number word)

unfoldable pub read_gps : Bytes → Option Gps
read_gps payload = do
  latitude ← read_word payload 0 4
  longitude ← read_word payload 4 4
  groundspeed ← read_word payload 8 2
  heading ← read_word payload 10 2
  altitude ← read_word payload 12 2
  satellites ← load payload 14
  some (record {
    latitude = signed32 latitude;
    longitude = signed32 longitude;
    groundspeed = groundspeed;
    heading = heading;
    altitude = altitude;
    satellites = satellites;
  })

abbrev pub zero_gps : Gps
zero_gps = record {
  latitude = pos 0;
  longitude = pos 0;
  groundspeed = 0;
  heading = 0;
  altitude = 0;
  satellites = 0;
}

unfoldable pub parse_gps : Packet → Option Gps
parse_gps packet = if leb 17 packet.length then read_gps packet.payload else some zero_gps

-- The body of the loop of `parseRCChannels`, for channel `i`. `value` is a uint16_t.
unfoldable pub rc_channel : Bytes → ℕ → Option ℕ
rc_channel payload i = do
  let bit_offset = u16 (i * 11)
  let byte_offset = u8 (bit_offset / 8)
  let bit_in_byte = bit_offset % 8
  low ← load payload byte_offset
  let value = u16 (low / 2 ^ bit_in_byte)
  value' ←
      (if ltb 8 (bit_in_byte + 11)
        then (load payload (byte_offset + 1) >>= λ b.
            some (u16 (bit_or value (b * 2 ^ (8 - bit_in_byte)))))
        else some value)
  value'' ←
      (if ltb 16 (bit_in_byte + 11)
        then (load payload (byte_offset + 2) >>= λ b.
            some (u16 (bit_or value' (b * 2 ^ (16 - bit_in_byte)))))
        else some value')
  some (bit_and value'' 0x07FF)

-- The channels from `i` on, with the rounds that are left.
unfoldable pub rc_channels_from : ℕ → ℕ → Bytes → Option (List ℕ)
rc_channels_from zero i payload = some []
rc_channels_from (suc n) i payload = do
  c ← rc_channel payload i
  cs ← rc_channels_from n (suc i) payload
  some (c ∷ cs)

unfoldable pub parse_rc_channels : Packet → Option (List ℕ)
parse_rc_channels packet =
    if leb 24 packet.length then rc_channels_from 16 0 packet.payload else some (replicate 16 0)

-- `-(int8_t)stats->uplink_RSSI_1`, returned as an int8_t: only -(-128) is out of its range.
unfoldable pub rssi_from_link_stats : LinkStats → ℤ
rssi_from_link_stats stats =
    if stats.uplink_rssi_1 == 128 then signed8 128 else neg (signed8 stats.uplink_rssi_1)
