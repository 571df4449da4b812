-- ===== src/RemoteId/Message.antt =====
-- The message parsers of `RemoteIDDetector` and the data of a drone. A quantity that the
-- source computes in floating point is kept as the integer that it is computed from (coordinates in
-- 1e-7 degrees, altitude and height in half metres, speed in quarters of a metre per second, area
-- radius in tens of metres); these are zero exactly when the computed ones are. An access outside an
-- array is the fault `none`.
use sky_sweep.Prelude.{
  ℕ, ◌+◌, ◌*◌, ◌/◌, Bool, true, false, not, ◌&&◌, Option, none, some, [], ◌∷◌, if◌then◌else◌, ◌==◌,
  ltb, Bytes, replicate, load, store, copy, ◌>>=◌,
}
use sky_sweep.Prelude.Int.{ℤ, pos, negsuc, sub_ℕ, signed32}

-- The message types that the detector reads.
abbrev pub basic_id : ℕ
basic_id = 0

abbrev pub location : ℕ
location = 1

abbrev pub system : ℕ
system = 4

abbrev pub operator_id : ℕ
operator_id = 5

-- `DroneRemoteIDData`
pub record Drone : Type 0 where
  pub uas_id : Bytes
  pub id_type : ℕ
  pub ua_type : ℕ
  pub latitude : ℤ
  pub longitude : ℤ
  pub altitude : ℤ
  pub height : ℤ
  pub speed : ℕ
  pub direction : ℕ
  pub operator_latitude : ℤ
  pub operator_longitude : ℤ
  pub area_radius : ℕ
  pub classification : ℕ
  pub rssi : ℤ
  pub last_seen : ℕ
  pub is_valid : Bool
  pub operator_id_text : Bytes

abbrev pub empty_drone : Drone
empty_drone = record {
  uas_id = replicate 21 0;
  id_type = 0;
  ua_type = 0;
  latitude = pos 0;
  longitude = pos 0;
  altitude = pos 0;
  height = pos 0;
  speed = 0;
  direction = 0;
  operator_latitude = pos 0;
  operator_longitude = pos 0;
  area_radius = 0;
  classification = 0;
  rssi = pos 0;
  last_seen = 0;
  is_valid = false;
  operator_id_text = replicate 21 0;
}

-- `strcmp(a, b) == 0` within the arrays: equal up to the first zero.
abbrev pub same_text : Bytes → Bytes → Bool
same_text [] [] = true
same_text [] (b ∷ ys) = b == 0
same_text (a ∷ xs) [] = a == 0
same_text (a ∷ xs) (b ∷ ys) = (a == b) && (if a == 0 then true else same_text xs ys)

-- `strlen(s) > 0`
abbrev pub has_text : Bytes → Bool
has_text [] = false
has_text (b ∷ bs) = not (b == 0)

abbrev pub is_zero : ℤ → Bool
is_zero (pos n) = n == 0
is_zero (negsuc n) = false

-- Two and four bytes, the highest first.
unfoldable pub be16 : Bytes → ℕ → Option ℕ
be16 payload i = do high ← load payload i; low ← load payload (i + 1); some (high * 256 + low)

unfoldable pub be32 : Bytes → ℕ → Option ℕ
be32 payload i = do high ← be16 payload i; low ← be16 payload (i + 2); some (high * 65536 + low)

-- `copy` of a text of 20 bytes into an array of 21, and its final zero.
unfoldable pub copy_text : Bytes → ℕ → Option Bytes
copy_text payload i = do text ← copy (replicate 21 0) payload i 20; store text 20 0

unfoldable pub parse_basic_id_message : Bytes → Drone → Option Drone
parse_basic_id_message payload drone = do
  kind ← load payload 0
  if not (kind == basic_id) then some drone else (do
    id_type ← load payload 1
    ua_type ← load payload 2
    uas_id ← copy_text payload 3
    some (record drone {
      id_type = id_type;
      ua_type = ua_type;
      uas_id = uas_id;
      is_valid = ltb 0 id_type && has_text uas_id;
    }))

unfoldable pub parse_location_message : Bytes → Drone → Option Drone
parse_location_message payload drone = do
  kind ← load payload 0
  if not (kind == location) then some drone else (do
    lat ← be32 payload 2
    lon ← be32 payload 6
    alt ← be16 payload 10
    height ← be16 payload 12
    speed ← load payload 14
    direction ← be16 payload 15
    some (record drone {
      latitude = signed32 lat;
      longitude = signed32 lon;
      altitude = sub_ℕ alt 1000;
      height = sub_ℕ height 1000;
      speed = speed;
      direction = direction / 100;
      is_valid = not (is_zero (signed32 lat)) && not (is_zero (signed32 lon));
    }))

unfoldable pub parse_system_message : Bytes → Drone → Option Drone
parse_system_message payload drone = do
  kind ← load payload 0
  if not (kind == system) then some drone else (do
    lat ← be32 payload 2
    lon ← be32 payload 6
    radius ← be16 payload 10
    classification ← load payload 12
    some (record drone {
      operator_latitude = signed32 lat;
      operator_longitude = signed32 lon;
      area_radius = radius;
      classification = classification;
      is_valid = true;
    }))

unfoldable pub parse_operator_id_message : Bytes → Drone → Option Drone
parse_operator_id_message payload drone = do
  kind ← load payload 0
  if not (kind == operator_id) then some drone else (do
    text ← copy_text payload 2
    some (record drone { operator_id_text = text; is_valid = true }))

-- The switch of `onResult`; `some none` is its `return`.
unfoldable pub parse_message : ℕ → Bytes → Drone → Option (Option Drone)
parse_message payload_length payload drone = do
  kind ← load payload 0
  if kind == basic_id
      then (if ltb payload_length 23
          then some none
          else (parse_basic_id_message payload drone >>= λ d. some (some d)))
      else if kind == location
      then (if ltb payload_length 17
          then some none
          else (parse_location_message payload drone >>= λ d. some (some d)))
      else if kind == system
      then (if ltb payload_length 13
          then some none
          else (parse_system_message payload drone >>= λ d. some (some d)))
      else if kind == operator_id
      then (if ltb payload_length 22
          then some none
          else (parse_operator_id_message payload drone >>= λ d. some (some d)))
      else some none
