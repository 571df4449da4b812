-- ===== src/Gnss/Receiver.antt =====
-- `GPSModule`: the last fix and the geofences. What the TinyGPS library has decoded is an argument,
-- and the floating-point operations are those of a given type of numbers.
use sky_sweep.Prelude.{
  ℕ, Bool, true, false, not, ◌&&◌, ◌||◌, Option, none, some, List, [], ◌∷◌, ◌++◌, if◌then◌else◌,
  ltb, leb, take, sub32, Bytes,
}
use sky_sweep.Config.Storage.{is_text}

-- The operations on a type of numbers; `earth` is the radius in `calculateDistance`, and `missing`
-- the answer -1.
pub record Floats (F : Type 0) : Type 0 where
  pub zero : F
  pub one : F
  pub two : F
  pub half_circle : F
  pub pi : F
  pub earth : F
  pub missing : F
  pub add : F → F → F
  pub sub : F → F → F
  pub mul : F → F → F
  pub div : F → F → F
  pub sin : F → F
  pub cos : F → F
  pub sqrt : F → F
  pub atan2 : F → F → F
  pub at_most : F → F → Bool

-- What the library has decoded of a location.
pub record Location (F : Type 0) : Type 0 where
  pub latitude : F
  pub longitude : F
  pub altitude : F
  pub speed : F
  pub course : F
  pub hdop : F
  pub satellites : ℕ

-- `GPSData`
pub record GpsData (F : Type 0) : Type 0 where
  pub location : Location F
  pub is_valid : Bool
  pub last_update : ℕ

pub record GeofenceZone (F : Type 0) : Type 0 where
  pub center_lat : F
  pub center_lon : F
  pub radius_meters : F
  pub alert_on_entry : Bool
  pub is_active : Bool
  pub name : Bytes

pub record GpsModule (F : Type 0) : Type 0 where
  pub current_data : GpsData F
  pub last_update_time : ℕ
  pub geofences : List (GeofenceZone F)

-- The constructor; a position of no meaning is all zero.
abbrev pub new_module : {F : Type 0} → Floats F → GpsModule F
new_module n = record {
  current_data = record {
    location = record {
      latitude = n.zero;
      longitude = n.zero;
      altitude = n.zero;
      speed = n.zero;
      course = n.zero;
      hdop = n.zero;
      satellites = 0;
    };
    is_valid = false;
    last_update = 0;
  };
  last_update_time = 0;
  geofences = [];
}

module _ {F : Type 0} (n : Floats F) where
  -- Degrees as radians.
  unfoldable pub radians : F → F
  radians x = n.div (n.mul x n.pi) n.half_circle

  -- The `a` of `calculateDistance`.
  unfoldable pub half_chord : F → F → F → F → F
  half_chord lat_1 lon_1 lat_2 lon_2 =
      let d_lat = radians (n.sub lat_2 lat_1) in
      let d_lon = radians (n.sub lon_2 lon_1) in
      let s = n.sin (n.div d_lat n.two) in
      let t = n.sin (n.div d_lon n.two) in
      n.add (n.mul s s) (n.mul (n.mul (n.mul (n.cos (radians lat_1)) (n.cos (radians lat_2))) t) t)

  unfoldable pub calculate_distance : F → F → F → F → F
  calculate_distance lat_1 lon_1 lat_2 lon_2 =
      let a = half_chord lat_1 lon_1 lat_2 lon_2 in
      n.mul n.earth (n.mul n.two (n.atan2 (n.sqrt a) (n.sqrt (n.sub n.one a))))

  unfoldable pub is_inside_geofence : GeofenceZone F → F → F → Bool
  is_inside_geofence zone lat lon =
      n.at_most (calculate_distance zone.center_lat zone.center_lon lat lon) zone.radius_meters

  -- The loop of `checkGeofenceViolations`, with the answer so far.
  unfoldable pub check_zones : List (GeofenceZone F) → F → F → Bool → Bool
  check_zones [] lat lon violation = violation
  check_zones (zone ∷ zones) lat lon violation =
      let inside = is_inside_geofence zone lat lon in
      check_zones zones lat lon (
        if zone.is_active
          && (zone.alert_on_entry && inside || not zone.alert_on_entry && not inside)
        then true
        else violation)

  unfoldable pub check_geofence_violations : F → F → GpsModule F → Bool
  check_geofence_violations lat lon m = check_zones m.geofences lat lon false

  unfoldable pub get_distance_to_point : F → F → GpsModule F → F
  get_distance_to_point lat lon m =
      if not m.current_data.is_valid
      then n.missing
      else calculate_distance m.current_data.location.latitude m.current_data.location.longitude lat
          lon

module _ {F : Type 0} where
  unfoldable pub take_fix : ℕ → Option (Location F) → GpsData F → GpsData F
  take_fix now none d = record d { is_valid = false }
  take_fix now (some l) d = record { location = l; is_valid = true; last_update = now }

  -- `update`, for the readings of the clock and the location that the library holds, if any.
  unfoldable pub update : ℕ → ℕ → ℕ → Option (Location F) → GpsModule F → GpsModule F
  update tested taken noted location m =
      if leb 1000 (sub32 tested m.last_update_time)
      then record m {
        current_data = take_fix taken location m.current_data;
        last_update_time = noted;
      }
      else m

  unfoldable pub is_fix_valid : ℕ → GpsModule F → Bool
  is_fix_valid now m = m.current_data.is_valid && ltb (sub32 now m.current_data.last_update) 5000

  -- A name has room for 31 characters.
  unfoldable pub add_geofence : Bytes → F → F → F → Bool → GpsModule F → GpsModule F
  add_geofence name lat lon radius alert_on_entry m = record m {
    geofences =
        m.geofences
        ++ record {
          center_lat = lat;
          center_lon = lon;
          radius_meters = radius;
          alert_on_entry = alert_on_entry;
          is_active = true;
          name = take 31 name;
        }
          ∷ [];
  }

  unfoldable pub keep_others : Bytes → List (GeofenceZone F) → List (GeofenceZone F)
  keep_others name [] = []
  keep_others name (z ∷ zs) =
      let rest = keep_others name zs in if is_text z.name name then rest else z ∷ rest

  unfoldable pub remove_geofence : Bytes → GpsModule F → GpsModule F
  remove_geofence name m = record m { geofences = keep_others name m.geofences }

  unfoldable pub clear_geofences : GpsModule F → GpsModule F
  clear_geofences m = record m { geofences = [] }
