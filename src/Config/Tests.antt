-- ===== src/Config/Tests.antt =====
-- The theorems on the configuration at concrete inputs.
use sky_sweep.Prelude.{ℕ, ◌≡◌, refl, Bool, true, false, some, [], ◌∷◌, arith, replicate}
use sky_sweep.Prelude.Int.{pos, negsuc}
use sky_sweep.Config.Storage.{
  RuntimeConfig, default_config, Variant, absent, text, number, flag, other, Conversions, Manager,
  new_manager, Storage, Document, Wifi, no_wifi, wifi_object, other_wifi, saved_document, save,
  validate_network_config,
}
use sky_sweep.Config.Manager.{to_json, load, loaded_wifi, from_json, given_wifi}
use sky_sweep.Config.Import.{IsReachable, from_json_rejects}
use sky_sweep.Config.RoundTrip.{IsExact, Fits, load-saved_document, from_json-to_json}

-- Conversions that give back what is in range, and 0 otherwise.
abbrev whole : Variant → ℕ
whole absent = 0
whole (text s) = 0
whole (number (pos n)) = n
whole (number (negsuc n)) = 0
whole (flag b) = 0
whole other = 0

abbrev flagged : Variant → Bool
flagged absent = false
flagged (text s) = false
flagged (number z) = false
flagged (flag b) = b
flagged other = false

abbrev is_object : Wifi → Bool
is_object no_wifi = false
is_object (wifi_object w) = true
is_object other_wifi = false

abbrev pub exact : Conversions
exact = record { is_json_object = is_object; as_u8 = whole; as_u32 = whole; as_bool = flagged }

exact-IsExact : IsExact exact
exact-IsExact = record { exact_u8 = λ n h. refl; exact_u32 = λ n h. refl; exact_bool = λ b. refl }

abbrev online : RuntimeConfig
online = record default_config { wifi_ssid = 65 ∷ 66 ∷ []; wifi_password = replicate 16 97 }

pub online-IsReachable : IsReachable online
unfolding validate_network_config
online-IsReachable = refl

online-Fits : Fits online
online-Fits = record {
  low = omega arith;
  medium = omega arith;
  high = omega arith;
  critical = omega arith;
  rf_scan = omega arith;
  display = omega arith;
  ble_scan = omega arith;
  gps_update = omega arith;
  log = omega arith;
  max_log = omega arith;
}

abbrev pub ready : Manager
ready = record new_manager { cfg = online; spiffs_ready = true }

abbrev pub working : Storage
working = record { opens = true; written = 300 }

abbrev full : Storage
full = record { opens = true; written = 0 }

abbrev broken : Document
broken = record (to_json online) { wifi = other_wifi }

refused : (from_json exact working (some broken) ready).0 ≡ false
unfolding from_json given_wifi
refused = refl

from_json_rejects_example : (from_json exact working (some broken) ready).1 ≡ ready
from_json_rejects_example =
    from_json_rejects exact working (some broken) ready
      (record { ready = refl; opens = refl; writes = refl }) refused

load-saved_document_example :
    load exact []
      (λ i. i)
      working
      (some (saved_document online))
      (record new_manager { spiffs_ready = true })
    ≡ (true, record ready { cfg = online })
unfolding saved_document
load-saved_document_example =
    load-saved_document exact [] (λ i. i) working online
      (record new_manager { spiffs_ready = true }) exact-IsExact online-Fits online-IsReachable refl
      refl

from_json-to_json_example :
    from_json exact working (some (to_json online)) ready ≡ save working ready
unfolding to_json
from_json-to_json_example =
    from_json-to_json exact working online ready exact-IsExact online-Fits online-IsReachable

-- A library that recognises no constant variant as a JsonObject: nothing is loaded or imported.
abbrev strict : Conversions
strict = record exact { is_json_object = λ wifi. false }

lost : load strict [] (λ i. i) working (some (saved_document online)) ready ≡ (false, ready)
unfolding load loaded_wifi saved_document
lost = refl

shut : from_json strict working (some (to_json online)) ready ≡ (false, ready)
unfolding from_json given_wifi to_json
shut = refl
