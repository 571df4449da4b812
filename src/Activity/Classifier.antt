-- ===== src/Activity/Classifier.antt =====
-- `classifyActivityLevel` and `ActivityClassifier`. The thresholds come from the configuration, and
-- a reading of `millis()` is an argument.
use sky_sweep.Prelude.{ℕ, Bool, true, false, ◌&&◌, [], ◌∷◌, if◌then◌else◌, ltb, sub32, Bytes}
use sky_sweep.Prelude.Int.{ℤ, pos, leb_ℤ}

-- `ActivityLevel`
pub data ActivityLevel : Type 0 where
  activity_none activity_low activity_medium activity_high activity_critical : ActivityLevel

-- The number of the enumerator.
abbrev pub level_number : ActivityLevel → ℕ
level_number activity_none = 0
level_number activity_low = 1
level_number activity_medium = 2
level_number activity_high = 3
level_number activity_critical = 4

-- `getActivityLevelString`
abbrev pub level_text : ActivityLevel → Bytes
level_text activity_none = 78 ∷ 79 ∷ 78 ∷ 69 ∷ []
level_text activity_low = 76 ∷ 79 ∷ 87 ∷ []
level_text activity_medium = 77 ∷ 69 ∷ 68 ∷ 73 ∷ 85 ∷ 77 ∷ []
level_text activity_high = 72 ∷ 73 ∷ 71 ∷ 72 ∷ []
level_text activity_critical = 67 ∷ 82 ∷ 73 ∷ 84 ∷ 73 ∷ 67 ∷ 65 ∷ 76 ∷ []

-- `ActivityThresholds`
pub record Thresholds : Type 0 where
  pub low : ℤ
  pub medium : ℤ
  pub high : ℤ
  pub critical : ℤ

-- `ActivityData`
pub record Activity : Type 0 where
  pub module_index : ℕ
  pub normalized_rssi : ℤ
  pub level : ActivityLevel
  pub first_observed_time : ℕ
  pub last_update_time : ℕ
  pub is_active : Bool

-- The constructor of `ActivityClassifier`.
abbrev pub new_activity : Activity
new_activity = record {
  module_index = 0;
  normalized_rssi = pos 0;
  level = activity_none;
  first_observed_time = 0;
  last_update_time = 0;
  is_active = false;
}

unfoldable pub classify_activity_level : ℤ → Thresholds → ActivityLevel
classify_activity_level normalized_rssi thresholds =
    if leb_ℤ thresholds.critical normalized_rssi
    then activity_critical
    else if leb_ℤ thresholds.high normalized_rssi
    then activity_high
    else if leb_ℤ thresholds.medium normalized_rssi
    then activity_medium
    else if leb_ℤ thresholds.low normalized_rssi
    then activity_low
    else activity_none

abbrev pub activity_timeout_ms : ℕ
activity_timeout_ms = 5000

-- `assessActivity` once the level is known.
unfoldable pub note_activity : ℕ → ℕ → ℤ → ActivityLevel → Activity → Activity
note_activity now module_index normalized_rssi level a =
    if ltb 0 (level_number level)
    then record {
      module_index = module_index;
      normalized_rssi = normalized_rssi;
      level = level;
      first_observed_time = if a.is_active then a.first_observed_time else now;
      last_update_time = now;
      is_active = true;
    }
    else if a.is_active && ltb activity_timeout_ms (sub32 now a.last_update_time)
    then record a { level = activity_none; is_active = false }
    else a

unfoldable pub assess_activity : Thresholds → ℕ → ℕ → ℤ → Activity → ActivityLevel × Activity
assess_activity thresholds now module_index normalized_rssi a =
    let level = classify_activity_level normalized_rssi thresholds in
    (level, note_activity now module_index normalized_rssi level a)
