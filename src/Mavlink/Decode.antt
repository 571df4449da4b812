-- ===== src/Mavlink/Decode.antt =====
-- The predicates and payload decoders of `MAVLinkParser`.
use sky_sweep.Prelude.{
  ℕ, Bool, Option, some, if◌then◌else◌, ◌==◌, leb, Bytes, load, le_number, ◌>>=◌, replicate, copy,
}
use sky_sweep.Prelude.Int.{ℤ, pos, signed32}
use sky_sweep.Mavlink.Parser.{Packet}

-- The messages that the parser names.
abbrev pub msg_id_heartbeat : ℕ
msg_id_heartbeat = 0

abbrev pub msg_id_gps_raw_int : ℕ
msg_id_gps_raw_int = 24

abbrev pub msg_id_rc_channels_raw : ℕ
msg_id_rc_channels_raw = 35

unfoldable pub is_heartbeat : Packet → Bool
is_heartbeat packet = packet.msgid == msg_id_heartbeat

unfoldable pub is_gps_data : Packet → Bool
is_gps_data packet = packet.msgid == msg_id_gps_raw_int

unfoldable pub is_rc_channels : Packet → Bool
is_rc_channels packet = packet.msgid == msg_id_rc_channels_raw

-- `MAVLinkHeartbeat`
pub record Heartbeat : Type 0 where
  pub type : ℕ
  pub autopilot : ℕ
  pub base_mode : ℕ
  pub custom_mode : ℕ
  pub system_status : ℕ
  pub mavlink_version : ℕ

-- `MAVLinkGPS`
pub record Gps : Type 0 where
  pub time_usec : ℕ
  pub lat : ℤ
  pub lon : ℤ
  pub alt : ℤ
  pub eph : ℕ
  pub epv : ℕ
  pub vel : ℕ
  pub cog : ℕ
  pub fix_type : ℕ
  pub satellites_visible : ℕ

-- `memcpy` of `n` payload bytes from index `i` into a number of the little-endian target.
unfoldable pub read_number : Bytes → ℕ → ℕ → Option ℕ
read_number payload i n = copy (replicate n 0) payload i n >>= λ bytes. some (le_number bytes)

unfoldable pub read_heartbeat : Bytes → Option Heartbeat
read_heartbeat payload = do
  type ← load payload 0
  autopilot ← load payload 1
  base_mode ← load payload 2
  custom_mode ← read_number payload 3 4
  system_status ← load payload 7
  mavlink_version ← load payload 8
  some (record {
    type = type;
    autopilot = autopilot;
    base_mode = base_mode;
    custom_mode = custom_mode;
    system_status = system_status;
    mavlink_version = mavlink_version;
  })

abbrev pub zero_heartbeat : Heartbeat
zero_heartbeat = record {
  type = 0;
  autopilot = 0;
  base_mode = 0;
  custom_mode = 0;
  system_status = 0;
  mavlink_version = 0;
}

unfoldable pub parse_heartbeat : Packet → Option Heartbeat
parse_heartbeat packet =
    if leb 9 packet.len then read_heartbeat packet.payload else some zero_heartbeat

unfoldable pub read_gps : Bytes → Option Gps
read_gps payload = do
  time_usec ← read_number payload 0 8
  lat ← read_number payload 8 4
  lon ← read_number payload 12 4
  alt ← read_number payload 16 4
  eph ← read_number payload 20 2
  epv ← read_number payload 22 2
  vel ← read_number payload 24 2
  cog ← read_number payload 26 2
  fix_type ← load payload 28
  satellites_visible ← load payload 29
  some (record {
    time_usec = time_usec;
    lat = signed32 lat;
    lon = signed32 lon;
    alt = signed32 alt;
    eph = eph;
    epv = epv;
    vel = vel;
    cog = cog;
    fix_type = fix_type;
    satellites_visible = satellites_visible;
  })

abbrev pub zero_gps : Gps
zero_gps = record {
  time_usec = 0;
  lat = pos 0;
  lon = pos 0;
  alt = pos 0;
  eph = 0;
  epv = 0;
  vel = 0;
  cog = 0;
  fix_type = 0;
  satellites_visible = 0;
}

unfoldable pub parse_gps : Packet → Option Gps
parse_gps packet = if leb 30 packet.len then read_gps packet.payload else some zero_gps
