-- ===== src/Boot/Setup.antt =====
-- `setup`: the components are started one after the other. What the file system, the gauge, the
-- semaphore, the radios, the network and the card answer is an argument; the display, the serial
-- line, the watchdog and the creation of the tasks are left out, and so are the GNSS receiver, which
-- opens its serial line, and the experimental Remote ID detector.
use sky_sweep.Prelude.{ℕ, Bool, true, Option, List, if◌then◌else◌, Bytes}
use sky_sweep.Spi.Bus.{Event, acquire, release, begin as begin_spi}
use sky_sweep.Config.Storage.{Conversions, Document, Storage}
use sky_sweep.Config.Manager.{begin as begin_config}
use sky_sweep.Power.Manager.{read_battery, begin as begin_power}
use sky_sweep.Cc1101.Scan.{on_bus, begin as begin_cc1101}
use sky_sweep.Sx1281.Driver.{begin as begin_sx1281}
use sky_sweep.Rx5808.Driver.{begin as begin_rx5808}
use sky_sweep.Alert.Manager.{Manager, begin as begin_alerts}
use sky_sweep.Web.Server.{App, begin as begin_web}
use sky_sweep.Mesh.Node.{Mesh}
use sky_sweep.Mesh.Send.{begin as begin_mesh}
use sky_sweep.Logger.Card.{Library, Format, DataLogger, Session}
use sky_sweep.Logger.Rotation.{begin as begin_logger}
use sky_sweep.Monitor.Receivers.{Drivers, with_bus}

-- The objects that `setup` starts.
pub record Device (C : Type 0) : Type 0 where
  pub app : App
  pub drivers : Drivers
  pub alerts : Manager
  pub mesh : Mesh
  pub logger : DataLogger
  pub card : C
  pub sessions : List Session

-- What the components find when they start.
pub record Found : Type 0 where
  pub conversions : Conversions
  pub mounts : Bool
  pub ssid : Bytes
  pub random : ℕ → ℕ
  pub storage : Storage
  pub file : Option Document
  pub gauge : Bool
  pub percent : Option ℕ
  pub mutex_created : Bool
  pub first_obtained : Bool
  pub second_obtained : Bool
  pub third_obtained : Bool
  pub radio_started : Bool
  pub radio_receives : Bool
  pub access_point : Bool
  pub espnow : Bool
  pub espnow_sent : Bool
  pub heartbeat_percent : Option ℕ
  pub own_mac : ℕ
  pub battery : ℕ
  pub modules : ℕ
  pub now : ℕ

-- A step under the lock; without the bus it is left out.
unfoldable pub locked_step : Bool → (Drivers → Drivers) → Drivers → Drivers
locked_step obtained step d =
    let (locked, b) = acquire obtained d.cc1101.bus in
    if locked
    then (let e = step (with_bus b d) in with_bus (release e.cc1101.bus) e)
    else with_bus b d

unfoldable pub start_cc1101 : Drivers → Drivers
start_cc1101 d = record d { cc1101 = (begin_cc1101 d.cc1101).1 }

-- The second argument is the traffic that the radio library adds.
unfoldable pub start_sx1281 : Found → (List Event → List Event) → Drivers → Drivers
start_sx1281 f radio_traffic d = record d {
  cc1101 = on_bus (λ b. record b { traffic = radio_traffic b.traffic }) d.cc1101;
  sx1281 = (begin_sx1281 f.radio_started f.radio_receives d.sx1281).1;
}

-- The bus and the receivers; the pins of the 5.8 GHz receiver are those of the generated header.
unfoldable pub start_drivers : Found → (List Event → List Event) → Drivers → Drivers
start_drivers f radio_traffic d =
    let on = with_bus (begin_spi f.mutex_created d.cc1101.bus).1 d in
    let first = locked_step f.first_obtained start_cc1101 on in
    let second = locked_step f.second_obtained (start_sx1281 f radio_traffic) first in
    record second { rx5808 = (begin_rx5808 6 7 14 second.rx5808).1 }

-- The configuration, the power manager and the web server, which waits for a configuration.
unfoldable pub start_app : Found → App → App
start_app f a =
    let (config_ready, m) =
      begin_config f.conversions f.mounts f.ssid f.random f.storage f.file a.config in
    let b = record a { config = m; power = begin_power f.gauge f.percent a.power } in
    if config_ready then (begin_web f.access_point b).1 else b

-- The heartbeat of `espNowMesh.begin` reads the battery.
unfoldable pub heard_battery : Bool → Option ℕ → App → App
heard_battery espnow percent a = record a {
  power = if espnow then read_battery percent a.power else a.power;
}

unfoldable pub setup :
    {C F : Type 0} → Library C → Format F → Found → (List Event → List Event) → Device C → Device C
setup sd text f radio_traffic d =
    let app = start_app f d.app in
    let drivers = start_drivers f radio_traffic d.drivers in
    let log =
      (begin_logger sd text f.third_obtained f.now (record {
        logger = d.logger;
        card = d.card;
        bus = drivers.cc1101.bus;
        sessions = d.sessions;
      })).1 in
    record {
      app = heard_battery f.espnow f.heartbeat_percent app;
      drivers = with_bus log.bus drivers;
      alerts = (begin_alerts app.config.cfg.stealth_mode true true d.alerts).1;
      mesh = (begin_mesh f.espnow f.espnow_sent f.own_mac f.now f.battery f.modules 0 d.mesh).mesh;
      logger = log.logger;
      card = log.card;
      sessions = log.sessions;
    }
