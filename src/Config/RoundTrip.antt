-- ===== src/Config/RoundTrip.antt =====
-- What is saved is loaded again, and what is exported can be imported.
use sky_sweep.Prelude.{
  ℕ, ◌<◌, ◌≡◌, refl, Bool, true, false, some, arith, Bytes, Bool-cases, inl, inr, if◌then◌else◌,
}
use sky_sweep.Prelude.Int.{pos}
use sky_sweep.Config.Storage.{
  RuntimeConfig, number, flag, Conversions, Manager, Storage, copy_bounded, validate_network_config,
  save, saved_document, retired_public_ssid, is_text,
}
use sky_sweep.Config.Manager.{
  override, channel_in, load_wifi, load_members, loaded_wifi, adopt, load, to_json, optional_text,
  optional_channel, given_object, given_wifi, given_members, from_json,
}
use sky_sweep.Config.Import.{IsReachable}

-- ArduinoJson gives back a number that the field type holds, and a flag.
pub record IsExact (j : Conversions) : Type 0 where
  pub exact_u8 : (n : ℕ) → n < 256 → j.as_u8 (number (pos n)) ≡ n
  pub exact_u32 : (n : ℕ) → n < 4294967296 → j.as_u32 (number (pos n)) ≡ n
  pub exact_bool : (b : Bool) → j.as_bool (flag b) ≡ b

-- The fields are in the range of their types.
pub record Fits (c : RuntimeConfig) : Type 0 where
  pub low : c.rssi_threshold_low < 256
  pub medium : c.rssi_threshold_medium < 256
  pub high : c.rssi_threshold_high < 256
  pub critical : c.rssi_threshold_critical < 256
  pub rf_scan : c.rf_scan_interval_ms < 4294967296
  pub display : c.display_update_ms < 4294967296
  pub ble_scan : c.ble_scan_interval_ms < 4294967296
  pub gps_update : c.gps_update_interval_ms < 4294967296
  pub log : c.log_level < 256
  pub max_log : c.max_log_size_mb < 4294967296

-- What a reachable network part means for the readers.
pub record NetworkFits (c : RuntimeConfig) : Type 0 where
  pub ssid : copy_bounded 32 c.wifi_ssid ≡ some c.wifi_ssid
  pub password : copy_bounded 64 c.wifi_password ≡ some c.wifi_password
  pub channel : channel_in (pos c.wifi_channel) ≡ some c.wifi_channel

IsReachable-NetworkFits : (c : RuntimeConfig) → IsReachable c → NetworkFits c
unfolding validate_network_config copy_bounded channel_in
IsReachable-NetworkFits c h = record {
  ssid = ground (arith, h);
  password = ground (arith, h);
  channel = ground (arith, h);
}

load_members-saved :
    (j : Conversions) (c old : RuntimeConfig)
    → IsExact j
    → Fits c
    → load_members j (saved_document c) (record old {
      wifi_ssid = c.wifi_ssid;
      wifi_password = c.wifi_password;
      wifi_channel = c.wifi_channel;
    })
      ≡ c
unfolding load_members saved_document override
load_members-saved j c old x f = rw (
  x.exact_u8 c.rssi_threshold_low f.low,
  x.exact_u8 c.rssi_threshold_medium f.medium,
  x.exact_u8 c.rssi_threshold_high f.high,
  x.exact_u8 c.rssi_threshold_critical f.critical,
  x.exact_u32 c.rf_scan_interval_ms f.rf_scan,
  x.exact_u32 c.display_update_ms f.display,
  x.exact_u32 c.ble_scan_interval_ms f.ble_scan,
  x.exact_u32 c.gps_update_interval_ms f.gps_update,
  x.exact_u8 c.log_level f.log,
  x.exact_u32 c.max_log_size_mb f.max_log,
  x.exact_bool c.stealth_mode,
)

-- With a mounted file system and exact conversions, for a configuration whose fields fit their
-- types, whose network part is valid and whose name is not the retired one, loading the document
-- that save wrote for it succeeds exactly if ArduinoJson answers true to is<JsonObject>() on the
-- constant variant of its network object; it then gives that configuration, whatever the one
-- before, and otherwise changes nothing.
pub load-saved_document :
    (j : Conversions) (ssid : Bytes) (random : ℕ → ℕ) (storage : Storage) (c : RuntimeConfig)
    (m : Manager)
    → IsExact j
    → Fits c
    → IsReachable c
    → is_text c.wifi_ssid retired_public_ssid ≡ false
    → m.spiffs_ready ≡ true
    → load j ssid random storage (some (saved_document c)) m ≡ (
        if j.is_json_object (saved_document c).wifi
        then (true, record m { cfg = c })
        else (false, m))
unfolding load loaded_wifi load_wifi saved_document adopt
load-saved_document j ssid random storage c m x f reach fresh ready =
    let n = IsReachable-NetworkFits c reach in
    elim (Bool-cases (j.is_json_object (saved_document c).wifi)) [
      | inr refused ↦ rw (ready, refused) refl
      | inl seen ↦
          rw
            (
              ready,
              seen,
              n.ssid,
              n.password,
              n.channel,
              load_members-saved j c m.cfg x f,
              reach,
              fresh,
            )
            refl
    ]

-- With exact conversions, importing what was exported for a configuration whose fields fit and
-- whose name and channel are valid with the own password takes over its network name and channel,
-- thresholds, scan interval, log level and stealth mode and nothing else (the own password stays),
-- and saves, exactly if ArduinoJson answers true to is<JsonObject>() on the constant variant of the
-- network object; otherwise it is refused and changes nothing.
pub from_json-to_json :
    (j : Conversions) (storage : Storage) (c : RuntimeConfig) (m : Manager)
    → IsExact j
    → Fits c
    → IsReachable (record c { wifi_password = m.cfg.wifi_password })
    → from_json j storage (some (to_json c)) m ≡ (
        if j.is_json_object (to_json c).wifi
        then save storage (record m {
          cfg = record (m.cfg) {
            wifi_ssid = c.wifi_ssid;
            wifi_channel = c.wifi_channel;
            rssi_threshold_low = c.rssi_threshold_low;
            rssi_threshold_medium = c.rssi_threshold_medium;
            rssi_threshold_high = c.rssi_threshold_high;
            rssi_threshold_critical = c.rssi_threshold_critical;
            rf_scan_interval_ms = c.rf_scan_interval_ms;
            log_level = c.log_level;
            stealth_mode = c.stealth_mode;
          };
        })
        else (false, m))
unfolding from_json to_json given_wifi given_object optional_text optional_channel given_members
    override validate_network_config
from_json-to_json j storage c m x f reach =
    let n = IsReachable-NetworkFits (record c { wifi_password = m.cfg.wifi_password }) reach in
    elim (Bool-cases (j.is_json_object (to_json c).wifi)) [
      | inr refused ↦ rw refused refl
      | inl seen ↦
          rw
            (
              seen,
              n.ssid,
              n.channel,
              reach,
              x.exact_u8 c.rssi_threshold_low f.low,
              x.exact_u8 c.rssi_threshold_medium f.medium,
              x.exact_u8 c.rssi_threshold_high f.high,
              x.exact_u8 c.rssi_threshold_critical f.critical,
              x.exact_u32 c.rf_scan_interval_ms f.rf_scan,
              x.exact_u8 c.log_level f.log,
              x.exact_bool c.stealth_mode,
            )
            refl
    ]
