-- ===== src/Monitor/Tests.antt =====
-- Tests of the alerts, the classifier and the sweep, and their theorems at concrete inputs.
use sky_sweep.Prelude.{ℕ, ◌≤◌, ◌≡◌, ◌↔◌, ◌⊎◌, refl, true, false, List, [], ◌∷◌, arith, max, sub32}
use sky_sweep.Prelude.Int.{pos, ◌≤ℤ◌}
use sky_sweep.Alert.Manager.{
  tone, Manager, alert_none, alert_activity_critical, alert_activity_high, rank, new_manager,
  update, update_beeps, alert,
}
use sky_sweep.Alert.Silence.{all_dark, update_stealth}
use sky_sweep.Alert.Duration.{update-after_timeout, alert_sounds}
use sky_sweep.Activity.Classifier.{
  Thresholds, new_activity, activity_critical, level_number, classify_activity_level,
  assess_activity,
}
use sky_sweep.Activity.Level.{
  Ascends, IsConsistent, classify_activity_level_exact, assess_activity-IsConsistent,
}
use sky_sweep.Monitor.Sweep.{Reading, sweep_from}
use sky_sweep.Monitor.Escalation.{
  Step, assess, tick, run, highest, sweep_from-highest, critical_stays,
}

-- The default thresholds.
abbrev thresholds : Thresholds
thresholds = record { low = pos 45; medium = pos 60; high = pos 75; critical = pos 85 }

abbrev shown : Manager
shown = record new_manager {
  buzzer_enabled = true;
  led_enabled = true;
  current_alert = alert_activity_high;
  alert_start_time = 4294967290;
  beeps_remaining = 3;
}

abbrev alarmed : Manager
alarmed = record shown { current_alert = alert_activity_critical; beeps_remaining = 0 }

update_stealth_example :
    (all_dark (update true 1 true 2 shown).0 ≡ true)
    × ((update true 1 true 2 shown).1.current_alert ≡ alert_activity_high)
    × ((update true 1 true 2 shown).1.led_state ≡ false)
update_stealth_example = update_stealth 1 2 shown

-- The clock wraps round while the alert is shown.
update-after_timeout_example : (update false 9000 false 20000 shown).1.current_alert ≡ alert_none
update-after_timeout_example = update-after_timeout false 9000 20000 shown refl (omega arith)

alert_sounds_example :
    (freq : ℕ) × (duration : ℕ) × ((update_beeps false 7
        (alert 7 7 alert_activity_critical shown)).0
      ≡ tone freq duration ∷ [])
alert_sounds_example =
    alert_sounds 7 7 alert_activity_critical shown (omega arith) (omega arith) refl refl

thresholds-Ascends : Ascends thresholds
thresholds-Ascends = record {
  low_medium = omega arith;
  medium_high = omega arith;
  high_critical = omega arith;
}

classify_activity_level_exact_example :
    ((1 ≤ level_number (classify_activity_level (pos 60) thresholds)) ↔ (pos 45 ≤ℤ pos 60))
    × ((2 ≤ level_number (classify_activity_level (pos 60) thresholds)) ↔ (pos 60 ≤ℤ pos 60))
    × ((3 ≤ level_number (classify_activity_level (pos 60) thresholds)) ↔ (pos 75 ≤ℤ pos 60))
    × ((4 ≤ level_number (classify_activity_level (pos 60) thresholds)) ↔ (pos 85 ≤ℤ pos 60))
classify_activity_level_exact_example =
    classify_activity_level_exact (pos 60) thresholds thresholds-Ascends

new_activity-IsConsistent : IsConsistent new_activity
new_activity-IsConsistent = record { agree = ground arith }

assess_activity-IsConsistent_example :
    IsConsistent (assess_activity thresholds 9 0 (pos 60) new_activity).1
    × (((assess_activity thresholds 9 0 (pos 60) new_activity).1.is_active ≡ true) ↔ (
        (1 ≤ level_number (assess_activity thresholds 9 0 (pos 60) new_activity).0)
        ⊎ ((false ≡ true) × (sub32 9 0 ≤ 5000))))
assess_activity-IsConsistent_example =
    assess_activity-IsConsistent thresholds 9 0 (pos 60) new_activity new_activity-IsConsistent

abbrev reading : ℕ → Reading
reading rssi = record { rssi = pos rssi; assessed = 1; started = 2; noted = 3 }

abbrev readings : List Reading
readings = reading 10 ∷ reading 90 ∷ reading 60 ∷ []

sweep_from-highest_example :
    rank
      (sweep_from thresholds 0 readings
        (record { activity = new_activity; alerts = shown })).2.alerts.current_alert
    ≡ max 3 (highest thresholds readings)
sweep_from-highest_example =
    sweep_from-highest thresholds 0 readings (record { activity = new_activity; alerts = shown })

abbrev steps : List Step
steps = tick false 1 false 90000 ∷ assess 90001 90001 activity_critical ∷ []

critical_stays_example :
    ((run steps alarmed).current_alert ≡ alert_activity_critical)
    × ((run steps alarmed).beeps_remaining ≤ 0)
critical_stays_example = critical_stays steps alarmed refl
