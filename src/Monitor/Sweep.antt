-- ===== src/Monitor/Sweep.antt =====
-- One sweep of `taskRFScanning` over the receivers. The readings of the receivers and of the clock
-- are arguments; what goes to the mesh, the dashboard and the log is a list of reports.
use sky_sweep.Prelude.{ℕ, suc, Bool, not, ◌||◌, List, [], ◌∷◌, ◌++◌, if◌then◌else◌, ◌==◌, ltb, leb}
use sky_sweep.Prelude.Int.{ℤ, pos, leb_ℤ}
use sky_sweep.Alert.Manager.{
  AlertType, alert_activity_medium, alert_activity_high, alert_activity_critical, rank, Manager,
  alert,
}
use sky_sweep.Activity.Classifier.{
  ActivityLevel, level_number, Thresholds, Activity, assess_activity,
}

-- `kReceiverCount`
abbrev pub receiver_count : ℕ
receiver_count = 3

-- A receiver's reading and flag in `receivers`.
pub record Receiver : Type 0 where
  pub rssi : ℤ
  pub active : Bool

pub data Report : Type 0 where
  activity_alert : ℤ → ℕ → ActivityLevel → Report
  rf_data : ℕ → ℤ → Bool → Report
  log_entry : ℕ → ℤ → Report

pub record Monitor : Type 0 where
  pub activity : Activity
  pub alerts : Manager

-- The alert type for a level of at least medium.
unfoldable pub alert_for : ActivityLevel → AlertType
alert_for level =
    if level_number level == 4
    then alert_activity_critical
    else if level_number level == 3
    then alert_activity_high
    else alert_activity_medium

-- The alert is raised if it is above the current one, or if there is none.
unfoldable pub escalate : ℕ → ℕ → ActivityLevel → Manager → Manager
escalate started now level m =
    if leb 2 (level_number level)
    then (if ltb (rank m.current_alert) (rank (alert_for level)) || rank m.current_alert == 0
        then alert started now (alert_for level) m
        else m)
    else m

-- The readings of one round: the receiver's, and the clock's in the classifier and in `alert`.
pub record Reading : Type 0 where
  pub rssi : ℤ
  pub assessed : ℕ
  pub started : ℕ
  pub noted : ℕ

-- The `band` argument of `sendActivityAlert`.
unfoldable pub band_of : ℕ → ℕ
band_of receiver = if receiver == 0 then 2 else if receiver == 1 then 3 else 4

-- The body of the loop over the receivers.
unfoldable pub scan_receiver : Thresholds → ℕ → Reading → Monitor → Receiver × List Report × Monitor
scan_receiver thresholds receiver r m =
    let active = not (leb_ℤ r.rssi (pos 40)) in
    let (level, activity) = assess_activity thresholds r.assessed receiver r.rssi m.activity in
    (
      record { rssi = r.rssi; active = active },
      (if leb 3 (level_number level)
            then activity_alert r.rssi (band_of receiver) level ∷ []
            else [])
          ++ (rf_data receiver r.rssi active
              ∷ (if active then log_entry receiver r.rssi ∷ [] else [])),
      record { activity = activity; alerts = escalate r.started r.noted level m.alerts },
    )

-- The loop from a receiver on, over the readings that are left.
unfoldable pub sweep_from :
    Thresholds → ℕ → List Reading → Monitor → List Receiver × List Report × Monitor
sweep_from thresholds receiver [] m = ([], [], m)
sweep_from thresholds receiver (r ∷ rs) m =
    let (state, reports, n) = scan_receiver thresholds receiver r m in
    let (states, more, o) = sweep_from thresholds (suc receiver) rs n in
    (state ∷ states, reports ++ more, o)
