-- ===== src/Firmware/Sound.antt =====
-- What holds of the objects at all times, and that replacing one of them keeps the rest.
use sky_sweep.Prelude.{ℕ, ◌≤◌, ◌<◌, ◌≡◌, ap, ◌∙◌, true, List, not, All, length}
use sky_sweep.Prelude.Int.{pos, leb_ℤ}
use sky_sweep.Activity.Classifier.{Activity}
use sky_sweep.Activity.Level.{IsConsistent}
use sky_sweep.Mesh.Node.{Mesh, PeerNode}
use sky_sweep.Mesh.Table.{Represents}
use sky_sweep.RemoteId.Detector.{Detector}
use sky_sweep.RemoteId.Result.{IsValid}
use sky_sweep.Web.Server.{App}
use sky_sweep.Web.Guard.{Stands}
use sky_sweep.Alert.Manager.{Manager}
use sky_sweep.Spi.Bus.{Bus}
use sky_sweep.Monitor.Receivers.{Drivers}
use sky_sweep.Monitor.Sweep.{Receiver, receiver_count}
use sky_sweep.Monitor.Steady.{IsPercent, InBand, Steady}
use sky_sweep.Firmware.World.{World, with_app, with_drivers, with_mesh, with_alerts}

-- A running server has a password of at least eight characters; the stored network can be brought
-- up, and the CPU and the Wi-Fi follow the power mode.
pub record Guards (a : App) : Type 0 where
  pub stands : Stands a
  pub long : 8 ≤ length a.server.management_password

-- A shown reading is within 0 and 100, and active above 40.
pub record IsShown (r : Receiver) : Type 0 where
  pub percent : IsPercent r.rssi
  pub flag : r.active ≡ not (leb_ℤ r.rssi (pos 40))

pub record IsShownAll (rs : List Receiver) : Type 0 where
  pub three : length rs ≡ receiver_count
  pub shown : All IsShown rs

-- The receivers are within their bands, no call holds the bus, a running web server is guarded, the
-- tables of peers and drones are well formed, the classifier agrees with itself, the three readings
-- are in range, and the sweep counter is below ten.
pub record Sound {C F : Type 0} (w : World C F) : Type 0 where
  pub in_band : InBand w.device.drivers
  pub free : w.device.drivers.cc1101.bus.taken ≡ 0
  pub guards : w.device.app.server.is_running ≡ true → Guards w.device.app
  pub known : List PeerNode
  pub peers : Represents w.device.mesh known
  pub drones : IsValid w.detector
  pub activity : IsConsistent w.activity
  pub readings : IsShownAll w.receivers
  pub counter : w.sweep_counter < 10

module _ {C F : Type 0} (w : World C F) (s : Sound w) where
  pub with_drivers-Sound :
      (d : Drivers) → Steady w.device.drivers.cc1101.bus d → Sound (with_drivers d w)
  with_drivers-Sound d t = record {
    in_band = t.in_band;
    free = ap (λ (b : Bus). b.taken) t.talks.1 ∙ s.free;
    guards = s.guards;
    known = s.known;
    peers = s.peers;
    drones = s.drones;
    activity = s.activity;
    readings = s.readings;
    counter = s.counter;
  }

  pub with_app-Sound : (a : App) → (a.server.is_running ≡ true → Guards a) → Sound (with_app a w)
  with_app-Sound a g = record {
    in_band = s.in_band;
    free = s.free;
    guards = g;
    known = s.known;
    peers = s.peers;
    drones = s.drones;
    activity = s.activity;
    readings = s.readings;
    counter = s.counter;
  }

  pub with_mesh-Sound :
      (m : Mesh) (known : List PeerNode) → Represents m known → Sound (with_mesh m w)
  with_mesh-Sound m known r = record {
    in_band = s.in_band;
    free = s.free;
    guards = s.guards;
    known = known;
    peers = r;
    drones = s.drones;
    activity = s.activity;
    readings = s.readings;
    counter = s.counter;
  }

  pub with_alerts-Sound : (m : Manager) → Sound (with_alerts m w)
  with_alerts-Sound m = record {
    in_band = s.in_band;
    free = s.free;
    guards = s.guards;
    known = s.known;
    peers = s.peers;
    drones = s.drones;
    activity = s.activity;
    readings = s.readings;
    counter = s.counter;
  }

  pub with_detector-Sound : (d : Detector) → IsValid d → Sound (record w { detector = d })
  with_detector-Sound d v = record {
    in_band = s.in_band;
    free = s.free;
    guards = s.guards;
    known = s.known;
    peers = s.peers;
    drones = v;
    activity = s.activity;
    readings = s.readings;
    counter = s.counter;
  }

  pub with_counter-Sound : (n : ℕ) → n < 10 → Sound (record w { sweep_counter = n })
  with_counter-Sound n h = record {
    in_band = s.in_band;
    free = s.free;
    guards = s.guards;
    known = s.known;
    peers = s.peers;
    drones = s.drones;
    activity = s.activity;
    readings = s.readings;
    counter = h;
  }

  pub with_readings-Sound :
      (rs : List Receiver) (a : Activity)
      → IsShownAll rs
      → IsConsistent a
      → Sound (record w { receivers = rs; activity = a })
  with_readings-Sound rs a shown c = record {
    in_band = s.in_band;
    free = s.free;
    guards = s.guards;
    known = s.known;
    peers = s.peers;
    drones = s.drones;
    activity = c;
    readings = shown;
    counter = s.counter;
  }
