-- ===== src/Config/Manager.antt =====
-- The operations of `ConfigManager` that read documents or change the configuration.
use sky_sweep.Prelude.{
  ℕ, Bool, true, false, not, ◌||◌, Option, none, some, if◌then◌else◌, ltb, Bytes, ◌>>=◌,
}
use sky_sweep.Prelude.Int.{ℤ, pos, negsuc}
use sky_sweep.Config.Storage.{
  RuntimeConfig, Variant, WifiObject, Wifi, Document, Conversions, Manager, Storage,
  retired_public_ssid, copy_bounded, default_config, generate_network_credentials,
  validate_network_config, is_text, save, absent, text, number, flag, other, no_wifi, wifi_object,
  other_wifi,
}

-- `if (!member.isNull()) field = member;`
unfoldable pub override {ℓ} : {A : Type ℓ} → (Variant → A) → Variant → A → A
override convert absent old = old
override convert (text s) old = convert (text s)
override convert (number z) old = convert (number z)
override convert (flag b) old = convert (flag b)
override convert other old = convert other

-- `configuredChannel`, within 1 to 13.
unfoldable pub channel_in : ℤ → Option ℕ
channel_in (negsuc _) = none
channel_in (pos n) = if ltb n 1 || ltb 13 n then none else some n

-- The three checks of `load` on the members of the network object.
unfoldable pub load_wifi : Variant → Variant → Variant → RuntimeConfig → Option RuntimeConfig
load_wifi (text ssid) (text password) (number channel) c = do
  name ← copy_bounded 32 ssid
  secret ← copy_bounded 64 password
  n ← channel_in channel
  some (record c { wifi_ssid = name; wifi_password = secret; wifi_channel = n })
load_wifi _ _ _ c = none

unfoldable pub load_members : Conversions → Document → RuntimeConfig → RuntimeConfig
load_members j doc c = record c {
  rssi_threshold_low = override j.as_u8 doc.low c.rssi_threshold_low;
  rssi_threshold_medium = override j.as_u8 doc.medium c.rssi_threshold_medium;
  rssi_threshold_high = override j.as_u8 doc.high c.rssi_threshold_high;
  rssi_threshold_critical = override j.as_u8 doc.critical c.rssi_threshold_critical;
  rf_scan_interval_ms = override j.as_u32 doc.rf_scan_ms c.rf_scan_interval_ms;
  display_update_ms = override j.as_u32 doc.display_ms c.display_update_ms;
  ble_scan_interval_ms = override j.as_u32 doc.ble_scan_ms c.ble_scan_interval_ms;
  gps_update_interval_ms = override j.as_u32 doc.gps_update_ms c.gps_update_interval_ms;
  log_level = override j.as_u8 doc.log_level c.log_level;
  max_log_size_mb = override j.as_u32 doc.max_log_mb c.max_log_size_mb;
  stealth_mode = override j.as_bool doc.stealth_mode c.stealth_mode;
}

-- The members behind `as<JsonObjectConst>()`; of what is no object, all are absent.
abbrev pub members_of : Wifi → WifiObject
members_of (wifi_object w) = w
members_of no_wifi = record { ap_mode = absent; ssid = absent; password = absent; channel = absent }
members_of other_wifi = record {
  ap_mode = absent;
  ssid = absent;
  password = absent;
  channel = absent;
}

-- The network part of the configuration that `load` reads.
unfoldable pub loaded_wifi : Conversions → RuntimeConfig → Wifi → Option RuntimeConfig
loaded_wifi j c wifi =
    if j.is_json_object wifi
    then (let w = members_of wifi in load_wifi w.ssid w.password w.channel c)
    else none

-- The last steps of `load`: the check, the assignment, and new credentials for the retired name.
unfoldable pub adopt : Bytes → (ℕ → ℕ) → Storage → RuntimeConfig → Manager → Bool × Manager
adopt ssid random storage loaded m =
    if not (validate_network_config loaded)
    then (false, m)
    else if is_text loaded.wifi_ssid retired_public_ssid
    then save storage (generate_network_credentials ssid random (record m { cfg = loaded }))
    else (true, record m { cfg = loaded })

abbrev pub adopt_read :
    Conversions
    → Bytes
    → (ℕ → ℕ)
    → Storage
    → Manager
    → Document
    → Option RuntimeConfig
    → Bool × Manager
adopt_read j ssid random storage m doc none = (false, m)
adopt_read j ssid random storage m doc (some c) = adopt ssid random storage (load_members j doc c) m

-- `load`; `doc` is the object in the file, if it opens and holds one.
unfoldable pub load :
    Conversions → Bytes → (ℕ → ℕ) → Storage → Option Document → Manager → Bool × Manager
load j ssid random storage none m = (false, m)
load j ssid random storage (some doc) m =
    if not m.spiffs_ready
    then (false, m)
    else adopt_read j ssid random storage m doc (loaded_wifi j m.cfg doc.wifi)

unfoldable pub first_boot : Bytes → (ℕ → ℕ) → Storage → Manager → Bool × Manager
first_boot ssid random storage m =
    save storage (generate_network_credentials ssid random (record m { cfg = default_config }))

abbrev pub unless_loaded : Bytes → (ℕ → ℕ) → Storage → Bool × Manager → Bool × Manager
unless_loaded ssid random storage (true, m) = (true, m)
unless_loaded ssid random storage (false, m) = first_boot ssid random storage m

-- `begin`; no document when the file is missing.
unfoldable pub begin :
    Conversions → Bool → Bytes → (ℕ → ℕ) → Storage → Option Document → Manager → Bool × Manager
begin j mounts ssid random storage doc m =
    if mounts
    then unless_loaded ssid random storage
        (load j ssid random storage doc (record m { spiffs_ready = true }))
    else (false, record m { spiffs_ready = false })

-- The rest of `reset`, for the file that is there.
unfoldable pub remove_file : Bool → Option Document → Manager → Bool × Manager
remove_file removed none m = (true, m)
remove_file removed (some doc) m = if removed then (true, record m { file = none }) else (false, m)

-- `reset`; the argument is the answer of `SPIFFS.remove`.
unfoldable pub reset : Bool → Manager → Bool × Manager
reset removed m =
    if not m.spiffs_ready
    then (false, m)
    else remove_file removed m.file (record m { network_credentials_generated = false })

abbrev pub adopt_checked : Storage → Manager → Option RuntimeConfig → Bool × Manager
adopt_checked storage m none = (false, m)
adopt_checked storage m (some updated) =
    if validate_network_config updated
    then save storage (record m { cfg = updated })
    else (false, m)

-- The two copies of `setWifi`; a null pointer is `none`.
unfoldable pub bounded_wifi : Option Bytes → Option Bytes → ℕ → RuntimeConfig → Option RuntimeConfig
bounded_wifi ssid password channel c = do
  given ← ssid
  name ← copy_bounded 32 given
  given' ← password
  secret ← copy_bounded 64 given'
  some (record c { wifi_ssid = name; wifi_password = secret; wifi_channel = channel })

unfoldable pub set_wifi : Storage → Option Bytes → Option Bytes → ℕ → Manager → Bool × Manager
set_wifi storage ssid password channel m =
    adopt_checked storage m (bounded_wifi ssid password channel m.cfg)

unfoldable pub set_thresholds : Storage → ℕ → ℕ → ℕ → ℕ → Manager → Bool × Manager
set_thresholds storage low med high crit m = save storage (record m {
  cfg = record (m.cfg) {
    rssi_threshold_low = low;
    rssi_threshold_medium = med;
    rssi_threshold_high = high;
    rssi_threshold_critical = crit;
  };
})

unfoldable pub set_scan_interval : Storage → ℕ → Manager → Bool × Manager
set_scan_interval storage rf_ms m =
    save storage (record m { cfg = record (m.cfg) { rf_scan_interval_ms = rf_ms } })

-- The document of `toJSON`.
unfoldable pub to_json : RuntimeConfig → Document
to_json c = record {
  wifi = wifi_object (record {
    ap_mode = absent;
    ssid = text c.wifi_ssid;
    password = absent;
    channel = number (pos c.wifi_channel);
  });
  low = number (pos c.rssi_threshold_low);
  medium = number (pos c.rssi_threshold_medium);
  high = number (pos c.rssi_threshold_high);
  critical = number (pos c.rssi_threshold_critical);
  rf_scan_ms = number (pos c.rf_scan_interval_ms);
  display_ms = number (pos c.display_update_ms);
  ble_scan_ms = number (pos c.ble_scan_interval_ms);
  gps_update_ms = absent;
  log_level = number (pos c.log_level);
  max_log_mb = absent;
  stealth_mode = flag c.stealth_mode;
}

-- A member that may be missing, but must be a text that fits.
unfoldable pub optional_text : ℕ → Variant → Bytes → Option Bytes
optional_text size absent old = some old
optional_text size (text s) old = copy_bounded size s
optional_text size (number z) old = none
optional_text size (flag b) old = none
optional_text size other old = none

unfoldable pub optional_channel : Variant → ℕ → Option ℕ
optional_channel absent old = some old
optional_channel (text s) old = none
optional_channel (number z) old = channel_in z
optional_channel (flag b) old = none
optional_channel other old = none

abbrev pub is_absent : Variant → Bool
is_absent absent = true
is_absent (text s) = false
is_absent (number z) = false
is_absent (flag b) = false
is_absent other = false

unfoldable pub given_object : WifiObject → RuntimeConfig → Option RuntimeConfig
given_object w c = if not (is_absent w.ap_mode) then none else (do
  name ← optional_text 32 w.ssid c.wifi_ssid
  secret ← optional_text 64 w.password c.wifi_password
  n ← optional_channel w.channel c.wifi_channel
  some (record c { wifi_ssid = name; wifi_password = secret; wifi_channel = n }))

-- `!wifi.isNull()`
abbrev pub is_given : Wifi → Bool
is_given no_wifi = false
is_given (wifi_object w) = true
is_given other_wifi = true

-- The network part of `fromJSON`.
unfoldable pub given_wifi : Conversions → RuntimeConfig → Wifi → Option RuntimeConfig
given_wifi j c wifi =
    if not (is_given wifi)
    then some c
    else if j.is_json_object wifi
    then given_object (members_of wifi) c
    else none

unfoldable pub given_members : Conversions → Document → RuntimeConfig → RuntimeConfig
given_members j doc c = record c {
  rssi_threshold_low = override j.as_u8 doc.low c.rssi_threshold_low;
  rssi_threshold_medium = override j.as_u8 doc.medium c.rssi_threshold_medium;
  rssi_threshold_high = override j.as_u8 doc.high c.rssi_threshold_high;
  rssi_threshold_critical = override j.as_u8 doc.critical c.rssi_threshold_critical;
  rf_scan_interval_ms = override j.as_u32 doc.rf_scan_ms c.rf_scan_interval_ms;
  log_level = override j.as_u8 doc.log_level c.log_level;
  stealth_mode = override j.as_bool doc.stealth_mode c.stealth_mode;
}

abbrev pub adopt_given :
    Conversions → Storage → Manager → Document → Option RuntimeConfig → Bool × Manager
adopt_given j storage m doc none = (false, m)
adopt_given j storage m doc (some updated) =
    if validate_network_config updated
    then save storage (record m { cfg = given_members j doc updated })
    else (false, m)

-- `fromJSON`; no document when the text is not a JSON object.
unfoldable pub from_json : Conversions → Storage → Option Document → Manager → Bool × Manager
from_json j storage none m = (false, m)
from_json j storage (some doc) m = adopt_given j storage m doc (given_wifi j m.cfg doc.wifi)
