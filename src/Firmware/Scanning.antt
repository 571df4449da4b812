-- ===== src/Firmware/Scanning.antt =====
-- `taskRFScanning` on all the objects that it uses.
use sky_sweep.Prelude.{
  ℕ, suc, ◌-◌, ◌%◌, Bool, ◌&&◌, Option, some, List, [], ◌∷◌, ◌++◌, if◌then◌else◌, ◌==◌, ltb, store,
  Bytes, ◌>>=◌,
}
use sky_sweep.Prelude.Int.{ℤ, pos, negsuc}
use sky_sweep.Power.Gauge.{Gauge, gauge_percent}
use sky_sweep.Power.Manager.{update as update_power}
use sky_sweep.Activity.Classifier.{level_number, level_text, Activity}
use sky_sweep.Mesh.Send.{send_activity_alert}
use sky_sweep.Logger.Entries.{log_rf_data}
use sky_sweep.Web.Server.{broadcast_rf_data, broadcast_activity_level}
use sky_sweep.Rx5808.Driver.{frequency_for_channel}
use sky_sweep.Monitor.Receivers.{Drivers, Found, read_receiver_rssi, count_sweep}
use sky_sweep.Monitor.Sweep.{
  receiver_count, Report, activity_alert, rf_data, log_entry, Reading, scan_receiver,
}
use sky_sweep.Firmware.World.{
  Libraries, World, Effect, frame, dashboard, name_of, thresholds_in, with_app, with_drivers,
  with_mesh, with_alerts, on_logger, effect_of,
}

-- The byte of an int8_t.
abbrev pub int8_byte : ℤ → ℕ
int8_byte (pos n) = n % 256
int8_byte (negsuc n) = 255 - n % 256

-- "All fitted receivers"
abbrev all_receivers : Bytes
all_receivers =
    65 ∷ 108 ∷ 108 ∷ 32 ∷ 102 ∷ 105 ∷ 116 ∷ 116 ∷ 101 ∷ 100 ∷ 32 ∷ 114 ∷ 101 ∷ 99 ∷ 101 ∷ 105 ∷ 118
    ∷ 101 ∷ 114 ∷ 115 ∷ []

-- "energy"
abbrev pub energy : Bytes
energy = 101 ∷ 110 ∷ 101 ∷ 114 ∷ 103 ∷ 121 ∷ []

-- What the reports of a receiver find: the answer of ESP-NOW and the time stamp of the message, the
-- dashboards, whether the bus is obtained for the log, and the two times of the log.
pub record Carrying : Type 0 where
  pub espnow_sent : Bool
  pub stamped : ℕ
  pub clients : ℕ
  pub obtained : Bool
  pub noted : ℕ
  pub logged : ℕ

-- What a receiver's part of a round finds: the readings of the clock are those in the classifier
-- and in `alert`.
pub record Heard (F : Type 0) : Type 0 where
  pub found : Found F
  pub assessed : ℕ
  pub started : ℕ
  pub noted : ℕ
  pub carrying : Carrying

-- The source that goes with the activity level.
unfoldable pub source_of : Activity → Bytes
source_of a =
    if a.is_active && ltb a.module_index receiver_count
    then name_of a.module_index
    else all_receivers

module _ {K C F : Type 0} (lib : Libraries K C F) where
  unfoldable pub receiver_frequency_mhz : ℕ → Drivers → F
  receiver_frequency_mhz receiver d =
      if receiver == 0
      then lib.floats.div (lib.of_count d.cc1101.current_frequency) (lib.of_count 1000000)
      else if receiver == 1
      then lib.of_count d.sx1281.current_frequency_mhz
      else lib.of_count (frequency_for_channel d.rx5808.current_channel)

  unfoldable pub sense : Found F → ℕ → World C F → ℤ × World C F
  sense f receiver w =
      let (rssi, d) = read_receiver_rssi lib.sensing f receiver w.device.drivers in
      (rssi, with_drivers d w)

  -- The reading is stored and assessed, and may raise an alert.
  unfoldable pub judge : ℕ → Reading → World C F → Option (List Report × World C F)
  judge receiver r w =
      let (state, reports, m) =
        scan_receiver (thresholds_in w.device.app.config.cfg) receiver r
          (record { activity = w.activity; alerts = w.device.alerts }) in
      store w.receivers receiver state >>= λ states.
      some (reports, record (with_alerts m.alerts w) { receivers = states; activity = m.activity })

  -- The message to the other nodes has no position.
  unfoldable pub carry_out : Carrying → Report → World C F → List (Effect F) × World C F
  carry_out h (activity_alert rssi band level) w =
      let sent =
        send_activity_alert h.espnow_sent h.stamped (int8_byte rssi) band (level_number level) 0 0
          w.device.mesh in
      (effect_of (λ (address, bytes). frame address bytes) sent.transmitted, with_mesh sent.mesh w)
  carry_out h (rf_data receiver rssi active) w = (
    effect_of dashboard
        (broadcast_rf_data h.clients (name_of receiver) rssi active w.device.app.server),
    w,
  )
  carry_out h (log_entry receiver rssi) w =
      let mhz = receiver_frequency_mhz receiver w.device.drivers in
      (
        [],
        on_logger
            (λ s.
              (log_rf_data lib.services.sd lib.format h.obtained h.noted h.logged (name_of receiver)
                rssi mhz energy s).1)
            w,
      )

  unfoldable pub carry_out_all : Carrying → List Report → World C F → List (Effect F) × World C F
  carry_out_all h [] w = ([], w)
  carry_out_all h (r ∷ rs) w =
      let (effects, u) = carry_out h r w in
      let (more, v) = carry_out_all h rs u in (effects ++ more, v)

  -- The body of the loop over the receivers.
  unfoldable pub scan_one : Heard F → ℕ → World C F → Option (List (Effect F) × World C F)
  scan_one h receiver w =
      let (rssi, u) = sense h.found receiver w in
      judge receiver
        (record { rssi = rssi; assessed = h.assessed; started = h.started; noted = h.noted }) u
      >>= λ (reports, v). some (carry_out_all h.carrying reports v)

  -- The loop from a receiver on, for what the others find.
  unfoldable pub scan_from : ℕ → List (Heard F) → World C F → Option (List (Effect F) × World C F)
  scan_from receiver [] w = some ([], w)
  scan_from receiver (h ∷ hs) w = scan_one h receiver w >>= λ (effects, u).
      scan_from (suc receiver) hs u >>= λ (more, v). some (effects ++ more, v)

module _ {C F : Type 0} where
  unfoldable pub tell_activity : ℕ → World C F → List (Effect F)
  tell_activity clients w = effect_of dashboard (
      broadcast_activity_level clients (level_text w.activity.level) (source_of w.activity)
        w.device.app.server)

  unfoldable pub sweep_bands : Bool → World C F → World C F
  sweep_bands obtained w =
      let (counter, d) = count_sweep obtained w.sweep_counter w.device.drivers in
      record (with_drivers d w) { sweep_counter = counter }

  unfoldable pub manage_power : ℕ → ℕ → Gauge → World C F → World C F
  manage_power tested noted gauge w =
      with_app
        (record w.device.app {
          power = update_power tested noted (gauge_percent gauge) w.device.app.power;
        })
        w

-- What a round finds: at the three receivers, the dashboards, whether the bus is obtained for the
-- sweep, the two readings of the clock in the power manager, and its gauge.
pub record Round (F : Type 0) : Type 0 where
  pub sub_ghz : Heard F
  pub two_point_four : Heard F
  pub five_point_eight : Heard F
  pub clients : ℕ
  pub obtained : Bool
  pub tested : ℕ
  pub noted : ℕ
  pub gauge : Gauge

-- The body of the endless loop.
unfoldable pub scan_round :
    {K C F : Type 0} → Libraries K C F → Round F → World C F → Option (List (Effect F) × World C F)
scan_round lib r w =
    scan_from lib 0 (r.sub_ghz ∷ r.two_point_four ∷ r.five_point_eight ∷ []) w >>= λ (effects, u).
    some (
      effects ++ tell_activity r.clients u,
      manage_power r.tested r.noted r.gauge (sweep_bands r.obtained u),
    )
