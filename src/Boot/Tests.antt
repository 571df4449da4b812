-- ===== src/Boot/Tests.antt =====
-- The start of the firmware at a concrete input: a first boot.
use sky_sweep.Prelude.{◌≡◌, refl, true, none, some, List, [], ◌∷◌, arith, ◌*◌, ◌+◌}
use sky_sweep.Spi.Bus.{sx1281, low, high, sent, Event}
use sky_sweep.Config.Storage.{new_manager as new_config}
use sky_sweep.Config.Tests.{exact, working}
use sky_sweep.Power.Manager.{new_manager as new_power}
use sky_sweep.Alert.Manager.{new_manager as new_alerts}
use sky_sweep.Mesh.Node.{new_mesh}
use sky_sweep.Logger.Card.{File, new_logger}
use sky_sweep.Logger.Tests.{example_format}
use sky_sweep.Web.Server.{new_server}
use sky_sweep.Web.Tests.{card_library}
use sky_sweep.Monitor.Steady.{InBand}
use sky_sweep.Monitor.RoundTests.{drivers, drivers-InBand}
use sky_sweep.Boot.Setup.{Device, Found, setup}
use sky_sweep.Boot.Configured.{IsNaming}
use sky_sweep.Boot.Protected.{Protects, setup-Protects}

abbrev pub found : Found
found = record {
  conversions = exact;
  mounts = true;
  ssid = 83 ∷ 45 ∷ 49 ∷ [];
  random = λ i. i * 1000 + 7;
  storage = working;
  file = none;
  gauge = true;
  percent = some 90;
  mutex_created = true;
  first_obtained = true;
  second_obtained = true;
  third_obtained = true;
  radio_started = true;
  radio_receives = true;
  access_point = true;
  espnow = true;
  espnow_sent = true;
  heartbeat_percent = some 89;
  own_mac = 9;
  battery = 0;
  modules = 0;
  now = 1500;
}

pub found-IsNaming : IsNaming (83 ∷ 45 ∷ 49 ∷ [])
found-IsNaming = record { named = omega arith; short = omega arith }

abbrev device : Device (List File)
device = record {
  app = record { server = new_server; config = new_config; power = new_power };
  drivers = drivers;
  alerts = new_alerts;
  mesh = new_mesh;
  logger = new_logger;
  card = [];
  sessions = [];
}

abbrev adds : List Event → List Event
adds t = high sx1281 ∷ sent 29 ∷ low sx1281 ∷ t

setup-Protects_example :
    ((setup card_library example_format found adds device).app.server.is_running ≡ true
      → Protects (setup card_library example_format found adds device).app)
    × InBand (setup card_library example_format found adds device).drivers
setup-Protects_example =
    setup-Protects card_library example_format found adds device (λ t h. rw h refl) found-IsNaming
      refl refl drivers-InBand
