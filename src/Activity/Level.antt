-- ===== src/Activity/Level.antt =====
-- What the classifier promises.
use sky_sweep.Prelude.{ℕ, ◌≤◌, ◌≡◌, ◌↔◌, ◌⊎◌, true, sub32, arith}
use sky_sweep.Prelude.Int.{ℤ, ◌≤ℤ◌}
use sky_sweep.Activity.Classifier.{
  level_number, Thresholds, Activity, classify_activity_level, note_activity, assess_activity,
  activity_timeout_ms,
}

-- The thresholds ascend, as the default ones do.
pub record Ascends (t : Thresholds) : Type 0 where
  pub low_medium : t.low ≤ℤ t.medium
  pub medium_high : t.medium ≤ℤ t.high
  pub high_critical : t.high ≤ℤ t.critical

-- For ascending thresholds, the level is at least low, medium, high or critical exactly if the
-- reading reaches that threshold.
pub classify_activity_level_exact :
    (rssi : ℤ) (t : Thresholds)
    → Ascends t
    → ((1 ≤ level_number (classify_activity_level rssi t)) ↔ (t.low ≤ℤ rssi))
      × ((2 ≤ level_number (classify_activity_level rssi t)) ↔ (t.medium ≤ℤ rssi))
      × ((3 ≤ level_number (classify_activity_level rssi t)) ↔ (t.high ≤ℤ rssi))
      × ((4 ≤ level_number (classify_activity_level rssi t)) ↔ (t.critical ≤ℤ rssi))
unfolding classify_activity_level
classify_activity_level_exact rssi t a =
    ground (arith, a.low_medium, a.medium_high, a.high_critical)

-- The flag and the level of the classifier agree.
pub record IsConsistent (a : Activity) : Type 0 where
  pub agree : (a.is_active ≡ true) ↔ (1 ≤ level_number a.level)

-- assessActivity keeps the flag and the level in agreement, and reports activity after a reading
-- exactly if the reading shows some or the last one that did is at most 5000 ms old (modulo 2^32)
-- and was still reported.
pub assess_activity-IsConsistent :
    (t : Thresholds) (now index : ℕ) (rssi : ℤ) (a : Activity)
    → IsConsistent a
    → IsConsistent (assess_activity t now index rssi a).1
      × (((assess_activity t now index rssi a).1.is_active ≡ true) ↔ (
          (1 ≤ level_number (assess_activity t now index rssi a).0)
          ⊎ ((a.is_active ≡ true) × (sub32 now a.last_update_time ≤ activity_timeout_ms))))
unfolding assess_activity note_activity
assess_activity-IsConsistent t now index rssi a c =
    (record { agree = ground (arith, c.agree) }, ground (arith, c.agree))
