-- ===== src/Boot/Protected.antt =====
-- What holds once `setup` is done.
use sky_sweep.Prelude.{
  ℕ, ◌≤◌, ◌≡◌, refl, ap, sym, ◌∙◌, inl, inr, Bool, true, false, false≢true, Bool-cases, Option,
  none, some, List, arith, length, take_all,
}
use sky_sweep.Spi.Bus.{Event, Bus, release, begin as begin_spi}
use sky_sweep.Spi.Line.{line}
use sky_sweep.Spi.Lock.{acquire-cases}
use sky_sweep.Spi.Session.{release-IsIdle, begin-IsIdle}
use sky_sweep.Config.Manager.{begin as begin_config}
use sky_sweep.Config.Import.{IsReachable}
use sky_sweep.Power.Manager.{
  power_full, begin as begin_power, read_battery, set_cpu_frequency, set_wifi_power_save,
  apply_wifi_policy,
}
use sky_sweep.Power.Mode.{Follows, read_battery-Follows}
use sky_sweep.Cc1101.Safety.{on_bus-IsSafe, begin-IsSafe}
use sky_sweep.Sx1281.Driver.{Sx1281Driver, begin as begin_sx1281}
use sky_sweep.Rx5808.Channel.{begin-IsTuned as begin_rx5808-IsTuned}
use sky_sweep.Web.Server.{App, configure_network, begin as begin_web}
use sky_sweep.Logger.Card.{Library, Format}
use sky_sweep.Logger.Balance.{begins, run-bus}
use sky_sweep.Monitor.Receivers.{Drivers, with_bus}
use sky_sweep.Monitor.Steady.{IsSwept, InBand, with_bus-InBand}
use sky_sweep.Boot.Setup.{
  Device, Found, locked_step, start_cc1101, start_sx1281, start_drivers, start_app, heard_battery,
  setup,
}
use sky_sweep.Boot.Configured.{IsNaming, reachable-password, begin_config-Promises}

-- A running web server has the password of the configuration, of at least eight characters, and the
-- network that it serves can be brought up; the CPU and the Wi-Fi follow the power mode.
pub record Protects (a : App) : Type 0 where
  pub network : IsReachable a.config.cfg
  pub follows : Follows a.power
  pub password : a.server.management_password ≡ a.config.cfg.wifi_password
  pub long : 8 ≤ length a.server.management_password

begin_web-Protects :
    (up : Bool) (a : App)
    → IsReachable a.config.cfg
    → a.server.is_running ≡ false
    → a.power.current_mode ≡ power_full
    → a.power.cpu_mhz ≡ 240
    → (begin_web up a).1.server.is_running ≡ true
    → Protects (begin_web up a).1
unfolding begin_web configure_network apply_wifi_policy set_wifi_power_save
begin_web-Protects false a n off full fast running = absurd (false≢true (sym off ∙ running))
begin_web-Protects true a n off full fast running =
    let (long, short) = reachable-password a.config.cfg n in
    let whole = take_all 63 a.config.cfg.wifi_password (omega arith) in
    record {
      network = n;
      follows = record { cpu = rw full fast; wifi = refl };
      password = whole;
      long = rw whole long;
    }

begin_power-full :
    (gauge : Bool) (percent : Option ℕ) (a : App)
    → a.power.current_mode ≡ power_full
    → ((begin_power gauge percent a.power).current_mode ≡ power_full)
      × ((begin_power gauge percent a.power).cpu_mhz ≡ 240)
unfolding begin_power set_cpu_frequency read_battery
begin_power-full gauge none a full = (full, refl)
begin_power-full true (some n) a full = (full, refl)
begin_power-full false (some n) a full = (full, refl)

start_app-Protects :
    (f : Found) (a : App)
    → IsNaming f.ssid
    → a.server.is_running ≡ false
    → a.power.current_mode ≡ power_full
    → (start_app f a).server.is_running ≡ true
    → Protects (start_app f a)
unfolding start_app
start_app-Protects f a n off full =
    let r = begin_config f.conversions f.mounts f.ssid f.random f.storage f.file a.config in
    let b = record a { config = r.1; power = begin_power f.gauge f.percent a.power } in
    let promise =
      begin_config-Promises f.ssid f.random f.storage n f.conversions f.mounts f.file a.config in
    let (still, fast) = begin_power-full f.gauge f.percent a full in
    elim (Bool-cases r.0) [
      | inl ready ↦ rw ready (begin_web-Protects f.access_point b (promise ready) off still fast)
      | inr failed ↦ rw failed (λ running. absurd (false≢true (sym off ∙ running)))
    ]

heard_battery-Protects :
    (espnow : Bool) (percent : Option ℕ) (a : App)
    → Protects a
    → Protects (heard_battery espnow percent a)
unfolding heard_battery
heard_battery-Protects false percent a s = record {
  network = s.network;
  follows = s.follows;
  password = s.password;
  long = s.long;
}
heard_battery-Protects true percent a s = record {
  network = s.network;
  follows = read_battery-Follows percent a.power s.follows;
  password = s.password;
  long = s.long;
}

locked_step-InBand :
    (obtained : Bool) (step : Drivers → Drivers) (d : Drivers)
    → ((e : Drivers) → InBand e → InBand (step e))
    → InBand d
    → InBand (locked_step obtained step d)
unfolding locked_step
locked_step-InBand obtained step d keeps s = elim (acquire-cases obtained d.cc1101.bus) [
  | inl late ↦ rw late s
  | inr t ↦
      let ready = with_bus-InBand t.bus d (ap line t.same_traffic ∙ s.sub_ghz.idle) s in
      let e = step (with_bus t.bus d) in
      let done = keeps (with_bus t.bus d) ready in
      rw t.answers (
        with_bus-InBand (release e.cc1101.bus) e (release-IsIdle e.cc1101.bus done.sub_ghz.idle)
          done)
]

begin_sx1281-IsSwept :
    (started receives : Bool) (d : Sx1281Driver)
    → IsSwept d
    → IsSwept (begin_sx1281 started receives d).1
unfolding begin_sx1281
begin_sx1281-IsSwept false receives d s = s
begin_sx1281-IsSwept true false d s = s
begin_sx1281-IsSwept true true d s = record { index = s.index; above = s.above; below = s.below }

start_drivers-InBand :
    (f : Found) (radio_traffic : List Event → List Event) (d : Drivers)
    → ((t : List Event) → line t ≡ some none → line (radio_traffic t) ≡ some none)
    → InBand d
    → InBand (start_drivers f radio_traffic d)
unfolding start_drivers start_cc1101 start_sx1281
start_drivers-InBand f radio_traffic d idle s =
    let on =
      with_bus-InBand (begin_spi f.mutex_created d.cc1101.bus).1 d
        (begin-IsIdle f.mutex_created d.cc1101.bus s.sub_ghz.idle) s in
    let first =
      locked_step-InBand f.first_obtained start_cc1101 _
        (λ e h. record {
          sub_ghz = begin-IsSafe e.cc1101 h.sub_ghz;
          two_point_four = h.two_point_four;
          five_point_eight = h.five_point_eight;
        })
        on in
    let second =
      locked_step-InBand f.second_obtained (start_sx1281 f radio_traffic) _
        (λ e h. record {
          sub_ghz =
              on_bus-IsSafe (λ b. record b { traffic = radio_traffic b.traffic }) e.cc1101
                (idle e.cc1101.bus.traffic h.sub_ghz.idle) h.sub_ghz;
          two_point_four =
              begin_sx1281-IsSwept f.radio_started f.radio_receives e.sx1281 h.two_point_four;
          five_point_eight = h.five_point_eight;
        })
        first in
    record {
      sub_ghz = second.sub_ghz;
      two_point_four = second.two_point_four;
      five_point_eight = begin_rx5808-IsTuned _;
    }

-- From drivers in band, full power mode and a stopped web server, whatever the components find,
-- setup leaves the drivers in band; and if the web server runs then, its password is that of the
-- configuration and has at least 8 characters, the configured network can be brought up, and the
-- CPU and the Wi-Fi follow the power mode. The generated network name has 1 to 31 characters, and
-- RadioLib keeps to the rules of the bus.
pub setup-Protects :
    {C F : Type 0} (sd : Library C) (text : Format F) (f : Found)
    (radio_traffic : List Event → List Event) (d : Device C)
    → ((t : List Event) → line t ≡ some none → line (radio_traffic t) ≡ some none)
    → IsNaming f.ssid
    → d.app.server.is_running ≡ false
    → d.app.power.current_mode ≡ power_full
    → InBand d.drivers
    → ((setup sd text f radio_traffic d).app.server.is_running ≡ true
        → Protects (setup sd text f radio_traffic d).app)
      × InBand (setup sd text f radio_traffic d).drivers
unfolding setup heard_battery
setup-Protects sd text f radio_traffic d idle n off full s =
    let e = start_drivers f radio_traffic d.drivers in
    let up = start_drivers-InBand f radio_traffic d.drivers idle s in
    let same =
      (run-bus sd text f.third_obtained (begins f.now)
        (record { logger = d.logger; card = d.card; bus = e.cc1101.bus; sessions = d.sessions })) in
    (
      λ running.
          heard_battery-Protects f.espnow f.heartbeat_percent (start_app f d.app)
            (start_app-Protects f d.app n off full running),
      with_bus-InBand _ e (ap (λ (b : Bus). line b.traffic) same ∙ up.sub_ghz.idle) up,
    )
