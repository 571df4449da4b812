-- ===== src/Config/Storage.antt =====
-- The data of `ConfigManager`, its checks, and `save`. A JSON document is the values of the members
-- that the code reads (ArduinoJson parses and prints it); a text is its characters before the final
-- zero; the answers of SPIFFS, the random numbers and the formatted network name are arguments.
use sky_sweep.Prelude.{
  ℕ, zero, suc, ◌%◌, Bool, true, false, not, ◌&&◌, Option, none, some, [], ◌∷◌, if◌then◌else◌, ◌==◌,
  ltb, leb, Bytes, length, get_or,
}
use sky_sweep.Prelude.Int.{ℤ, pos}

-- `RuntimeConfig`
pub record RuntimeConfig : Type 0 where
  pub wifi_ssid : Bytes
  pub wifi_password : Bytes
  pub wifi_channel : ℕ
  pub rssi_threshold_low : ℕ
  pub rssi_threshold_medium : ℕ
  pub rssi_threshold_high : ℕ
  pub rssi_threshold_critical : ℕ
  pub rf_scan_interval_ms : ℕ
  pub display_update_ms : ℕ
  pub ble_scan_interval_ms : ℕ
  pub gps_update_interval_ms : ℕ
  pub log_level : ℕ
  pub max_log_size_mb : ℕ
  pub stealth_mode : Bool

-- A member of a document: absent or null, a text, an integer of the range of int, or anything else.
pub data Variant : Type 0 where
  absent : Variant
  text : Bytes → Variant
  number : ℤ → Variant
  flag : Bool → Variant
  other : Variant

pub record WifiObject : Type 0 where
  pub ap_mode : Variant
  pub ssid : Variant
  pub password : Variant
  pub channel : Variant

pub data Wifi : Type 0 where
  no_wifi : Wifi
  wifi_object : WifiObject → Wifi
  other_wifi : Wifi

-- A document that is an object.
pub record Document : Type 0 where
  pub wifi : Wifi
  pub low : Variant
  pub medium : Variant
  pub high : Variant
  pub critical : Variant
  pub rf_scan_ms : Variant
  pub display_ms : Variant
  pub ble_scan_ms : Variant
  pub gps_update_ms : Variant
  pub log_level : Variant
  pub max_log_mb : Variant
  pub stealth_mode : Variant

-- The conversions of ArduinoJson to the field types, and what `is<JsonObject>()` answers for a
-- `JsonVariantConst`.
pub record Conversions : Type 0 where
  pub is_json_object : Wifi → Bool
  pub as_u8 : Variant → ℕ
  pub as_u32 : Variant → ℕ
  pub as_bool : Variant → Bool

-- The fields of `ConfigManager`, and the document in the configuration file.
pub record Manager : Type 0 where
  pub cfg : RuntimeConfig
  pub spiffs_ready : Bool
  pub network_credentials_generated : Bool
  pub file : Option Document

-- How the file system answers: whether the file opens for writing, and the bytes that are written.
pub record Storage : Type 0 where
  pub opens : Bool
  pub written : ℕ

abbrev pub retired_public_ssid : Bytes
retired_public_ssid = 83 ∷ 107 ∷ 121 ∷ 83 ∷ 119 ∷ 101 ∷ 101 ∷ 112 ∷ 51 ∷ 50 ∷ []

abbrev pub credential_alphabet : Bytes
credential_alphabet =
    65 ∷ 66 ∷ 67 ∷ 68 ∷ 69 ∷ 70 ∷ 71 ∷ 72 ∷ 74 ∷ 75 ∷ 76 ∷ 77 ∷ 78 ∷ 80 ∷ 81 ∷ 82 ∷ 83 ∷ 84 ∷ 85
    ∷ 86 ∷ 87 ∷ 88 ∷ 89 ∷ 90 ∷ 97 ∷ 98 ∷ 99 ∷ 100 ∷ 101 ∷ 102 ∷ 103 ∷ 104 ∷ 105 ∷ 106 ∷ 107 ∷ 109
    ∷ 110 ∷ 111 ∷ 112 ∷ 113 ∷ 114 ∷ 115 ∷ 116 ∷ 117 ∷ 118 ∷ 119 ∷ 120 ∷ 121 ∷ 122 ∷ 50 ∷ 51 ∷ 52
    ∷ 53 ∷ 54 ∷ 55 ∷ 56 ∷ 57 ∷ []

unfoldable pub copy_bounded : ℕ → Bytes → Option Bytes
copy_bounded size source = if leb size (length source) then none else some source

abbrev pub default_config : RuntimeConfig
default_config = record {
  wifi_ssid = [];
  wifi_password = [];
  wifi_channel = 6;
  rssi_threshold_low = 45;
  rssi_threshold_medium = 60;
  rssi_threshold_high = 75;
  rssi_threshold_critical = 85;
  rf_scan_interval_ms = 100;
  display_update_ms = 500;
  ble_scan_interval_ms = 5000;
  gps_update_interval_ms = 1000;
  log_level = 1;
  max_log_size_mb = 10;
  stealth_mode = false;
}

abbrev pub new_manager : Manager
new_manager = record {
  cfg = default_config;
  spiffs_ready = false;
  network_credentials_generated = false;
  file = none;
}

-- `kApPasswordLength`
abbrev pub ap_password_length : ℕ
ap_password_length = 16

-- The loop over the password from an index on, with the rounds that are left.
unfoldable pub generated_from : (ℕ → ℕ) → ℕ → ℕ → Bytes
generated_from random zero index = []
generated_from random (suc n) index =
    get_or credential_alphabet (random index % length credential_alphabet) 0
    ∷ generated_from random n (suc index)

-- `random` gives what `esp_random` answers in each round.
unfoldable pub generate_network_credentials : Bytes → (ℕ → ℕ) → Manager → Manager
generate_network_credentials ssid random m = record m {
  cfg = record (m.cfg) {
    wifi_ssid = ssid;
    wifi_password = generated_from random ap_password_length 0;
  };
  network_credentials_generated = true;
}

unfoldable pub validate_network_config : RuntimeConfig → Bool
validate_network_config c =
    leb 1 (length c.wifi_ssid)
    && (ltb (length c.wifi_ssid) 32
        && (leb 8 (length c.wifi_password)
            && (ltb (length c.wifi_password) 64
                && (leb 1 c.wifi_channel && leb c.wifi_channel 13))))

-- `strcmp(a, b) == 0`
abbrev pub is_text : Bytes → Bytes → Bool
is_text [] [] = true
is_text [] (b ∷ ys) = false
is_text (a ∷ xs) [] = false
is_text (a ∷ xs) (b ∷ ys) = (a == b) && is_text xs ys

-- The document of `save`.
unfoldable pub saved_document : RuntimeConfig → Document
saved_document c = record {
  wifi = wifi_object (record {
    ap_mode = absent;
    ssid = text c.wifi_ssid;
    password = text c.wifi_password;
    channel = number (pos c.wifi_channel);
  });
  low = number (pos c.rssi_threshold_low);
  medium = number (pos c.rssi_threshold_medium);
  high = number (pos c.rssi_threshold_high);
  critical = number (pos c.rssi_threshold_critical);
  rf_scan_ms = number (pos c.rf_scan_interval_ms);
  display_ms = number (pos c.display_update_ms);
  ble_scan_ms = number (pos c.ble_scan_interval_ms);
  gps_update_ms = number (pos c.gps_update_interval_ms);
  log_level = number (pos c.log_level);
  max_log_mb = number (pos c.max_log_size_mb);
  stealth_mode = flag c.stealth_mode;
}

-- A file that opens but takes no bytes is left empty.
unfoldable pub save : Storage → Manager → Bool × Manager
save storage m =
    if not m.spiffs_ready
    then (false, m)
    else if not storage.opens
    then (false, m)
    else if ltb 0 storage.written
    then (true, record m { file = some (saved_document m.cfg) })
    else (false, record m { file = none })
