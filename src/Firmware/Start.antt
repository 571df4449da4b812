-- ===== src/Firmware/Start.antt =====
-- What `setup` leaves of the objects is sound.
use sky_sweep.Prelude.{ℕ, ◌≡◌, refl, ap, ◌∙◌, inl, inr, Bool, true, false, List, [], arith}
use sky_sweep.Spi.Bus.{Event, Bus, begin as begin_spi}
use sky_sweep.Spi.Lock.{acquire-cases}
use sky_sweep.Cc1101.Wires.{Talks, release-Talks, begin-Talks}
use sky_sweep.Logger.Balance.{begins, run-bus}
use sky_sweep.Mesh.Sending.{begin-Represents}
use sky_sweep.Monitor.Receivers.{Drivers, with_bus}
use sky_sweep.Monitor.Steady.{IsDocumented, InBand}
use sky_sweep.Boot.Setup.{Found, locked_step, start_cc1101, start_sx1281, start_drivers, setup}
use sky_sweep.Boot.Configured.{IsNaming}
use sky_sweep.Boot.Protected.{setup-Protects}
use sky_sweep.Firmware.World.{Libraries, new_device, started}
use sky_sweep.Prelude.Int.{pos}
use sky_sweep.Firmware.Sound.{IsShown, Sound}

locked_step-Talks :
    (obtained : Bool) (step : Drivers → Drivers) (d : Drivers)
    → ((e : Drivers) → Talks e.cc1101.bus (step e).cc1101.bus)
    → Talks d.cc1101.bus (locked_step obtained step d).cc1101.bus
unfolding locked_step
locked_step-Talks obtained step d talks = elim (acquire-cases obtained d.cc1101.bus) [
  | inl late ↦ rw late (d.cc1101.bus.traffic, refl)
  | inr t ↦ rw t.answers (release-Talks obtained d.cc1101.bus _ t (talks (with_bus t.bus d)))
]

Talks-taken : (b c : Bus) → Talks b c → c.taken ≡ b.taken
Talks-taken b c (t, p) = ap (λ (x : Bus). x.taken) p

begin_spi-taken : (created : Bool) (b : Bus) → b.taken ≡ 0 → (begin_spi created b).1.taken ≡ 0
unfolding begin_spi
begin_spi-taken true b h = refl
begin_spi-taken false b h = h

start_cc1101-Talks : (e : Drivers) → Talks e.cc1101.bus (start_cc1101 e).cc1101.bus
unfolding start_cc1101
start_cc1101-Talks e = begin-Talks e.cc1101

start_sx1281-Talks :
    (f : Found) (radio_traffic : List Event → List Event) (e : Drivers)
    → Talks e.cc1101.bus (start_sx1281 f radio_traffic e).cc1101.bus
unfolding start_sx1281
start_sx1281-Talks f radio_traffic e = (_, refl)

start_drivers-taken :
    (f : Found) (radio_traffic : List Event → List Event) (d : Drivers)
    → d.cc1101.bus.taken ≡ 0
    → (start_drivers f radio_traffic d).cc1101.bus.taken ≡ 0
unfolding start_drivers
start_drivers-taken f radio_traffic d h =
    let on = with_bus (begin_spi f.mutex_created d.cc1101.bus).1 d in
    let first = locked_step f.first_obtained start_cc1101 on in
    Talks-taken first.cc1101.bus _ (
      locked_step-Talks f.second_obtained (start_sx1281 f radio_traffic) first
        (start_sx1281-Talks f radio_traffic))
    ∙ Talks-taken on.cc1101.bus _
        (locked_step-Talks f.first_obtained start_cc1101 on start_cc1101-Talks)
    ∙ begin_spi-taken f.mutex_created d.cc1101.bus h

new_device-InBand :
    {C : Type 0} (chips : List Event → ℕ) (card : C) → InBand (new_device chips card).drivers
new_device-InBand chips card = record {
  sub_ghz = record { idle = refl; above = omega arith; below = omega arith };
  two_point_four = record { index = omega arith; above = omega arith; below = omega arith };
  five_point_eight = record { channel_in = omega arith; pins = refl };
}

module _ {K C F : Type 0} (lib : Libraries K C F) (documented : IsDocumented lib.sensing) where
  pub started-Sound :
      (f : Found) (chips : List Event → ℕ) (card : C) (interval : ℕ)
      → IsNaming f.ssid
      → Sound (started lib f chips card interval)
  unfolding started setup
  started-Sound f chips card interval naming =
      let d = new_device chips card in
      let e = start_drivers f lib.sensing.radio_traffic d.drivers in
      let (protects, in_band) =
        setup-Protects lib.services.sd lib.format f lib.sensing.radio_traffic d documented.idle
          naming refl refl (new_device-InBand chips card) in
      let same =
        (run-bus lib.services.sd lib.format f.third_obtained (begins f.now) (record {
          logger = d.logger;
          card = d.card;
          bus = e.cc1101.bus;
          sessions = d.sessions;
        })) in
      record {
        in_band = in_band;
        free =
            ap (λ (b : Bus). b.taken) same
            ∙ start_drivers-taken f lib.sensing.radio_traffic d.drivers refl;
        guards = λ running.
            let p = protects running in
            record { stands = record { network = p.network; follows = p.follows }; long = p.long };
        known = [];
        peers =
            begin-Represents f.espnow f.espnow_sent f.own_mac f.now f.battery f.modules 0 d.mesh []
              (record { table = refl; count = refl; bounded = omega arith; distinct = tt });
        drones = record { size = refl; count_in = omega arith };
        activity = record { agree = ground arith };
        readings = record { three = refl; shown = (shown, (shown, (shown, tt))) };
        counter = omega arith;
      }
    where
      shown : IsShown (record { rssi = pos 0; active = false })
      shown = record { percent = (omega arith, omega arith); flag = refl }
