-- ===== src/Firmware/World.antt =====
-- The objects of src/main.cpp that run after `setup`, and what the firmware gives to the outside.
use sky_sweep.Prelude.{ℕ, Bool, false, Option, none, some, List, [], ◌∷◌, Bytes, replicate, get_or}
use sky_sweep.Prelude.Int.{ℤ, pos}
use sky_sweep.Spi.Bus.{Event}
use sky_sweep.Config.Storage.{RuntimeConfig, new_manager as new_config}
use sky_sweep.Power.Manager.{new_manager as new_power}
use sky_sweep.Cc1101.Radio.{new_radio}
use sky_sweep.Sx1281.Driver.{new_driver as new_sx1281}
use sky_sweep.Rx5808.Driver.{new_driver as new_rx5808}
use sky_sweep.Alert.Manager.{Action, Manager, new_manager as new_alerts}
use sky_sweep.Activity.Classifier.{Thresholds, Activity, new_activity}
use sky_sweep.Mesh.Node.{Mesh, new_mesh}
use sky_sweep.Logger.Card.{Format, System, new_logger}
use sky_sweep.Web.Server.{App, Message, new_server}
use sky_sweep.Web.Routes.{Services}
use sky_sweep.RemoteId.Detector.{Detector, new_detector}
use sky_sweep.Gnss.Receiver.{Floats, GpsModule, new_module}
use sky_sweep.Monitor.Receivers.{Library, Drivers, with_bus}
use sky_sweep.Monitor.Sweep.{Receiver, receiver_count}
use sky_sweep.Boot.Setup.{Device, Found, setup}
use sky_sweep.Firmware.Screen.{Drawing, Texts}

-- The libraries, and the conversions of integers to a type of floating-point numbers: of a count,
-- of a latitude or longitude in units of 10^-7 degrees, and of an altitude in half metres.
pub record Libraries (K C F : Type 0) : Type 0 where
  pub services : Services K C
  pub format : Format F
  pub sensing : Library F
  pub texts : Texts
  pub floats : Floats F
  pub of_count : ℕ → F
  pub of_degrees : ℤ → F
  pub of_altitude : ℤ → F

-- The objects; `previous_stealth` is the variable of the display task.
pub record World (C F : Type 0) : Type 0 where
  pub device : Device C
  pub receivers : List Receiver
  pub activity : Activity
  pub sweep_counter : ℕ
  pub detector : Detector
  pub gnss : GpsModule F
  pub previous_stealth : Bool

-- What leaves the firmware: a message to an address of the mesh, a message to the dashboards, the
-- calls on the pins of the alerts and on the display, and the start of a scan for Remote IDs.
pub data Effect (F : Type 0) : Type 0 where
  frame : Bytes → Bytes → Effect F
  dashboard : Message F → Effect F
  pins : Action → Effect F
  screen : Drawing → Effect F
  starts_scan : Effect F

-- An effect that may be missing.
abbrev pub effect_of : {A F : Type 0} → (A → Effect F) → Option A → List (Effect F)
effect_of f none = []
effect_of f (some a) = f a ∷ []

-- The names in `receivers`: "855-925", "2.4 GHz" and "5.8 GHz".
abbrev pub receiver_names : List Bytes
receiver_names =
    (56 ∷ 53 ∷ 53 ∷ 45 ∷ 57 ∷ 50 ∷ 53 ∷ [])
    ∷ (50 ∷ 46 ∷ 52 ∷ 32 ∷ 71 ∷ 72 ∷ 122 ∷ [])
    ∷ (53 ∷ 46 ∷ 56 ∷ 32 ∷ 71 ∷ 72 ∷ 122 ∷ [])
    ∷ []

abbrev pub name_of : ℕ → Bytes
name_of receiver = get_or receiver_names receiver []

-- The thresholds that `assessActivity` takes from the configuration.
unfoldable pub thresholds_in : RuntimeConfig → Thresholds
thresholds_in c = record {
  low = pos c.rssi_threshold_low;
  medium = pos c.rssi_threshold_medium;
  high = pos c.rssi_threshold_high;
  critical = pos c.rssi_threshold_critical;
}

module _ {C F : Type 0} where
  abbrev pub with_app : App → World C F → World C F
  with_app a w = record w { device = record w.device { app = a } }

  abbrev pub with_drivers : Drivers → World C F → World C F
  with_drivers d w = record w { device = record w.device { drivers = d } }

  abbrev pub with_mesh : Mesh → World C F → World C F
  with_mesh m w = record w { device = record w.device { mesh = m } }

  abbrev pub with_alerts : Manager → World C F → World C F
  with_alerts m w = record w { device = record w.device { alerts = m } }

  -- A function of the logger, on the bus of the receivers.
  unfoldable pub on_logger : (System C → System C) → World C F → World C F
  on_logger f w =
      let s = f (record {
        logger = w.device.logger;
        card = w.device.card;
        bus = w.device.drivers.cc1101.bus;
        sessions = w.device.sessions;
      }) in
      record w {
        device = record w.device {
          drivers = with_bus s.bus w.device.drivers;
          logger = s.logger;
          card = s.card;
          sessions = s.sessions;
        };
      }

-- The objects before `setup`, on a bus whose chips answer in any way, with any card.
abbrev pub new_device : {C : Type 0} → (List Event → ℕ) → C → Device C
new_device chips card = record {
  app = record { server = new_server; config = new_config; power = new_power };
  drivers = record {
    cc1101 =
        new_radio (record {
          device = chips;
          traffic = [];
          created = false;
          taken = 0;
          initialized = false;
        });
    sx1281 = new_sx1281;
    rx5808 = new_rx5808;
  };
  alerts = new_alerts;
  mesh = new_mesh;
  logger = new_logger;
  card = card;
  sessions = [];
}

-- The firmware when `setup` is done; the interval is the argument of the detector's constructor.
unfoldable pub started :
    {K C F : Type 0} → Libraries K C F → Found → (List Event → ℕ) → C → ℕ → World C F
started lib f chips card interval = record {
  device = setup lib.services.sd lib.format f lib.sensing.radio_traffic (new_device chips card);
  receivers = replicate receiver_count (record { rssi = pos 0; active = false });
  activity = new_activity;
  sweep_counter = 0;
  detector = new_detector interval;
  gnss = new_module lib.floats;
  previous_stealth = false;
}
