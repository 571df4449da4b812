-- ===== src/Firmware/Observing.antt =====
-- Every call of the scanning task keeps the objects sound.
use sky_sweep.Prelude.{
  ℕ, zero, suc, ◌<◌, ◌≡◌, refl, ap, ◌∙◌, inl, inr, Bool, Bool-cases, Option, some, List, [], ◌∷◌,
  arith, ◌==◌, u8, All, set, store-some, length-set,
}
use sky_sweep.Spi.Bus.{Bus}
use sky_sweep.Spi.Line.{line}
use sky_sweep.Logger.Card.{System}
use sky_sweep.Logger.Balance.{senses, run-bus}
use sky_sweep.Activity.Level.{assess_activity-IsConsistent}
use sky_sweep.Activity.Classifier.{level_number}
use sky_sweep.Power.Gauge.{Gauge, gauge_percent}
use sky_sweep.Power.Mode.{update-Follows}
use sky_sweep.Mesh.Sending.{send_activity_alert-Represents}
use sky_sweep.Monitor.Receivers.{Drivers, Found, count_sweep}
use sky_sweep.Monitor.Sweep.{
  receiver_count, Report, activity_alert, rf_data, log_entry, Reading, scan_receiver,
}
use sky_sweep.Monitor.Steady.{
  IsDocumented, IsPercent, with_bus-InBand, read_receiver_rssi-Steady, read_receiver_rssi-IsPercent,
  count_sweep-Steady,
}
use sky_sweep.Firmware.World.{
  Libraries, World, thresholds_in, name_of, with_drivers, with_alerts, on_logger,
}
use sky_sweep.Firmware.Scanning.{
  Carrying, sense, judge, carry_out, carry_out_all, sweep_bands, manage_power, energy, int8_byte,
  receiver_frequency_mhz,
}
use sky_sweep.Firmware.Sound.{
  IsShown, IsShownAll, Sound, with_drivers-Sound, with_app-Sound, with_mesh-Sound,
  with_counter-Sound, with_alerts-Sound, with_readings-Sound,
}

-- A call returns, and leaves a sound world.
pub record Continues {A C F : Type 0} (r : Option (A × World C F)) : Type 0 where
  pub answer : A
  pub next : World C F
  pub returns : r ≡ some (answer, next)
  pub sound : Sound next

pub continues : {A C F : Type 0} (a : A) (w : World C F) → Sound w → Continues (some (a, w))
continues a w s = record { answer = a; next = w; returns = refl; sound = s }

All-set :
    {A : Type 0} (P : A → Type 0) (xs : List A) (i : ℕ) (v : A)
    → All P xs
    → P v
    → All P (set xs i v)
All-set P [] i v ps p = tt
All-set P (x ∷ xs) zero v (q, ps) p = (p, ps)
All-set P (x ∷ xs) (suc i) v (q, ps) p = (q, All-set P xs i v ps p)

pub on_logger-Sound :
    {C F : Type 0} (f : System C → System C) (w : World C F)
    → ((s : System C) → (f s).bus ≡ s.bus)
    → Sound w
    → Sound (on_logger f w)
unfolding on_logger
on_logger-Sound f w returns s =
    let d = w.device.drivers in
    let same = returns (record {
      logger = w.device.logger;
      card = w.device.card;
      bus = d.cc1101.bus;
      sessions = w.device.sessions;
    }) in
    record {
      in_band =
          with_bus-InBand _ d (ap (λ (b : Bus). line b.traffic) same ∙ s.in_band.sub_ghz.idle)
            s.in_band;
      free = ap (λ (b : Bus). b.taken) same ∙ s.free;
      guards = s.guards;
      known = s.known;
      peers = s.peers;
      drones = s.drones;
      activity = s.activity;
      readings = s.readings;
      counter = s.counter;
    }

module _ {K C F : Type 0} (lib : Libraries K C F) where
  pub sense-Sound :
      (f : Found F) (receiver : ℕ) (w : World C F)
      → IsDocumented lib.sensing
      → Sound w
      → IsPercent (sense lib f receiver w).0 × Sound (sense lib f receiver w).1
  unfolding sense
  sense-Sound f receiver w documented s =
      let (percent, steady) =
        read_receiver_rssi-Steady lib.sensing documented f receiver w.device.drivers s.in_band in
      (percent, with_drivers-Sound w s _ steady)

  pub sense-IsPercent :
      (f : Found F) (receiver : ℕ) (w : World C F)
      → IsDocumented lib.sensing
      → IsPercent (sense lib f receiver w).0
  unfolding sense
  sense-IsPercent f receiver w documented =
      read_receiver_rssi-IsPercent lib.sensing documented f receiver w.device.drivers

  pub judge-Continues :
      (receiver : ℕ) (r : Reading) (w : World C F)
      → receiver < receiver_count
      → IsPercent r.rssi
      → Sound w
      → Continues (judge lib receiver r w)
  unfolding judge scan_receiver
  judge-Continues receiver r w fits percent s =
      let judged =
        scan_receiver (thresholds_in w.device.app.config.cfg) receiver r
          (record { activity = w.activity; alerts = w.device.alerts }) in
      let three = s.readings.three in
      let shown : IsShownAll (set w.receivers receiver judged.0) = record {
        three = length-set w.receivers receiver judged.0 ∙ three;
        shown =
            All-set IsShown w.receivers receiver judged.0 s.readings.shown
              (record { percent = percent; flag = refl });
      } in
      let alerted = with_alerts-Sound w s judged.2.alerts in
      rw (store-some w.receivers receiver judged.0 (omega arith)) (
        continues _ _ (
          with_readings-Sound (with_alerts judged.2.alerts w) alerted _ judged.2.activity shown
            (assess_activity-IsConsistent (thresholds_in w.device.app.config.cfg) r.assessed
              receiver r.rssi w.activity s.activity).0))

  pub carry_out-Sound :
      (h : Carrying) (report : Report) (w : World C F)
      → Sound w
      → Sound (carry_out lib h report w).1
  unfolding carry_out
  carry_out-Sound h (activity_alert rssi band level) w s = with_mesh-Sound w s _ s.known (
      send_activity_alert-Represents w.device.mesh s.known s.peers h.espnow_sent h.stamped
        (int8_byte rssi) band (level_number level) 0 0)
  carry_out-Sound h (rf_data receiver rssi active) w s = s
  carry_out-Sound h (log_entry receiver rssi) w s =
      on_logger-Sound _ w
        (λ t.
          (run-bus lib.services.sd lib.format h.obtained
            (senses h.noted h.logged (name_of receiver) rssi
              (receiver_frequency_mhz lib receiver w.device.drivers) energy)
            t))
        s

  pub carry_out_all-Sound :
      (h : Carrying) (reports : List Report) (w : World C F)
      → Sound w
      → Sound (carry_out_all lib h reports w).1
  unfolding carry_out_all
  carry_out_all-Sound h [] w s = s
  carry_out_all-Sound h (r ∷ rs) w s = carry_out_all-Sound h rs _ (carry_out-Sound h r w s)

count_sweep-counter :
    (obtained : Bool) (counter : ℕ) (d : Drivers)
    → counter < 10
    → (count_sweep obtained counter d).0 < 10
unfolding count_sweep
count_sweep-counter obtained counter d h = elim (Bool-cases (u8 (suc counter) == 10)) [
  | inl tenth ↦ rw tenth (omega arith)
  | inr between ↦ rw between (ground (arith, between))
]

module _ {C F : Type 0} where
  pub sweep_bands-Sound :
      (obtained : Bool) (w : World C F) → Sound w → Sound (sweep_bands obtained w)
  unfolding sweep_bands
  sweep_bands-Sound obtained w s =
      let swept = count_sweep obtained w.sweep_counter w.device.drivers in
      with_counter-Sound (with_drivers swept.1 w)
        (with_drivers-Sound w s swept.1
          (count_sweep-Steady obtained w.sweep_counter w.device.drivers s.in_band))
        swept.0 (count_sweep-counter obtained w.sweep_counter w.device.drivers s.counter)

  pub manage_power-Sound :
      (tested noted : ℕ) (gauge : Gauge) (w : World C F)
      → Sound w
      → Sound (manage_power tested noted gauge w)
  unfolding manage_power
  manage_power-Sound tested noted gauge w s = with_app-Sound w s _ (λ running.
      let g = s.guards running in
      record {
        stands = record {
          network = g.stands.network;
          follows =
              update-Follows tested noted (gauge_percent gauge) w.device.app.power g.stands.follows;
        };
        long = g.long;
      })
