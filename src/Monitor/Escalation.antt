-- ===== src/Monitor/Escalation.antt =====
-- How alerts follow the levels of a sweep, and what happens behind a critical one.
use sky_sweep.Prelude.{
  ℕ, suc, ◌≤◌, ◌≡◌, refl, sym, subst, inl, inr, Bool, ◌||◌, List, [], ◌∷◌, ◌==◌, ltb, max, arith,
  Bool-cases,
}
use sky_sweep.Alert.Manager.{
  AlertType, alert_activity_medium, alert_activity_high, alert_activity_critical, rank, Manager,
  alert, pattern_of, start_pattern, update, update_beeps, update_led, auto_clear, blink, end_tone,
}
use sky_sweep.Activity.Classifier.{
  ActivityLevel, activity_none, activity_low, activity_medium, activity_high, activity_critical,
  Thresholds, classify_activity_level, assess_activity,
}
use sky_sweep.Monitor.Sweep.{Monitor, Reading, alert_for, escalate, scan_receiver, sweep_from}

-- The rank of the alert that a level calls for.
abbrev pub demanded : ActivityLevel → ℕ
demanded activity_none = 0
demanded activity_low = 0
demanded activity_medium = 2
demanded activity_high = 3
demanded activity_critical = 4

-- The highest rank that the readings of a sweep call for.
abbrev pub highest : Thresholds → List Reading → ℕ
highest t [] = 0
highest t (r ∷ rs) = max (demanded (classify_activity_level r.rssi t)) (highest t rs)

alert_current :
    (started now : ℕ) (type : AlertType) (m : Manager)
    → (alert started now type m).current_alert ≡ type
unfolding alert pattern_of start_pattern
alert_current started now type m = ground arith

escalate-demanded :
    (started now : ℕ) (level : ActivityLevel) (m : Manager)
    → rank (escalate started now level m).current_alert
      ≡ max (rank m.current_alert) (demanded level)
unfolding escalate alert_for
escalate-demanded started now activity_none m = omega arith
escalate-demanded started now activity_low m = omega arith
escalate-demanded started now activity_medium m =
    elim (Bool-cases (ltb (rank m.current_alert) 2 || rank m.current_alert == 0)) [
      | inl raised ↦
          rw (raised, alert_current started now alert_activity_medium m) (ground (arith, raised))
      | inr kept ↦ rw kept (ground (arith, kept))
    ]
escalate-demanded started now activity_high m =
    elim (Bool-cases (ltb (rank m.current_alert) 3 || rank m.current_alert == 0)) [
      | inl raised ↦
          rw (raised, alert_current started now alert_activity_high m) (ground (arith, raised))
      | inr kept ↦ rw kept (ground (arith, kept))
    ]
escalate-demanded started now activity_critical m =
    elim (Bool-cases (ltb (rank m.current_alert) 4 || rank m.current_alert == 0)) [
      | inl raised ↦
          rw (raised, alert_current started now alert_activity_critical m) (ground (arith, raised))
      | inr kept ↦ rw kept (ground (arith, kept))
    ]

-- After a sweep over any readings the rank of the current alert is the maximum of its rank before
-- and of the ranks that the levels of the readings call for.
pub sweep_from-highest :
    (t : Thresholds) (receiver : ℕ) (rs : List Reading) (m : Monitor)
    → rank (sweep_from t receiver rs m).2.alerts.current_alert
      ≡ max (rank m.alerts.current_alert) (highest t rs)
unfolding sweep_from scan_receiver assess_activity
sweep_from-highest t receiver [] m = omega arith
sweep_from-highest t receiver (r ∷ rs) m = omega (
  arith,
  sweep_from-highest t (suc receiver) rs (scan_receiver t receiver r m).2,
  escalate-demanded r.started r.noted (classify_activity_level r.rssi t) m.alerts,
)

-- What the tasks do with the alert manager: a level is assessed, or `update` runs.
pub data Step : Type 0 where
  assess : ℕ → ℕ → ActivityLevel → Step
  tick : Bool → ℕ → Bool → ℕ → Step

unfoldable pub run : List Step → Manager → Manager
run [] m = m
run (assess started now level ∷ rest) m = run rest (escalate started now level m)
run (tick stealth now stealth' now' ∷ rest) m = run rest (update stealth now stealth' now' m).1

critical-escalate :
    (started now : ℕ) (level : ActivityLevel) (m : Manager)
    → m.current_alert ≡ alert_activity_critical
    → escalate started now level m ≡ m
unfolding escalate alert_for
critical-escalate started now activity_none m e = refl
critical-escalate started now activity_low m e = refl
critical-escalate started now activity_medium m e = rw e
critical-escalate started now activity_high m e = rw e
critical-escalate started now activity_critical m e = rw e

critical-update :
    (stealth : Bool) (now : ℕ) (stealth' : Bool) (now' : ℕ) (m : Manager)
    → m.current_alert ≡ alert_activity_critical
    → ((update stealth now stealth' now' m).1.current_alert ≡ alert_activity_critical)
      × ((update stealth now stealth' now' m).1.beeps_remaining ≤ m.beeps_remaining)
unfolding update update_beeps update_led end_tone auto_clear blink
critical-update stealth now stealth' now' m e = ground (arith, e)

-- From a critical alert, after any sequence of assessed levels and updates the alert is still
-- critical and the number of beeps left has not grown.
pub critical_stays :
    (steps : List Step) (m : Manager)
    → m.current_alert ≡ alert_activity_critical
    → ((run steps m).current_alert ≡ alert_activity_critical)
      × ((run steps m).beeps_remaining ≤ m.beeps_remaining)
unfolding run
critical_stays [] m e = (e, omega arith)
critical_stays (assess started now level ∷ rest) m e =
    subst
      (λ n.
        ((run rest n).current_alert ≡ alert_activity_critical)
        × ((run rest n).beeps_remaining ≤ m.beeps_remaining))
      (sym (critical-escalate started now level m e)) (critical_stays rest m e)
critical_stays (tick stealth now stealth' now' ∷ rest) m e =
    let (same, fewer) = critical-update stealth now stealth' now' m e in
    let (stays, less) = critical_stays rest (update stealth now stealth' now' m).1 same in
    (stays, omega (arith, less, fewer))
