-- ===== src/Monitor/Steady.antt =====
-- What the single readings and the sweep keep of the receivers and of the bus.
use sky_sweep.Prelude.{
  ℕ, ◌≤◌, ◌<◌, ◌≡◌, refl, ap, ◌∙◌, inl, inr, Bool, Bool-cases, Option, none, some, List, arith,
  ◌==◌, u8, suc,
}
use sky_sweep.Prelude.Int.{ℤ, pos, ◌≤ℤ◌}
use sky_sweep.Spi.Bus.{Event, Bus, release}
use sky_sweep.Spi.Line.{line, IsIdle}
use sky_sweep.Spi.Lock.{Taken, acquire-cases}
use sky_sweep.Spi.Session.{release-IsIdle}
use sky_sweep.Cc1101.Radio.{read_rssi as read_sub_ghz}
use sky_sweep.Cc1101.Scan.{on_bus}
use sky_sweep.Cc1101.Safety.{IsSafe, on_bus-IsSafe, scan_all_bands-IsSafe, read_rssi-IsIdle}
use sky_sweep.Cc1101.Wires.{Talks, read_rssi-Talks, scan_all_bands-Talks, release-Talks}
use sky_sweep.Sx1281.Driver.{Numbers, Sx1281Driver, read_rssi, read_rssi_dbm}
use sky_sweep.Rx5808.Channel.{IsTuned, scan_next_channel-IsTuned}
use sky_sweep.Monitor.Receivers.{
  Library, Drivers, Found, with_bus, read_locked, read_shared, read_receiver_rssi, scan_locked,
  count_sweep,
}

-- The library is used within what its functions document.
pub record IsDocumented {F : Type 0} (lib : Library F) : Type 0 where
  pub constrained :
      (x : ℤ)
      → (pos 0 ≤ℤ lib.constrain x (pos 0) (pos 100))
        × (lib.constrain x (pos 0) (pos 100) ≤ℤ pos 100)
  pub idle : (t : List Event) → line t ≡ some none → line (lib.radio_traffic t) ≡ some none

-- The 2.4 GHz receiver is on one of its 21 channels between 2400 and 2500 MHz.
pub record IsSwept (d : Sx1281Driver) : Type 0 where
  pub index : d.channel_index < 21
  pub above : 2400 ≤ d.current_frequency_mhz
  pub below : d.current_frequency_mhz ≤ 2500

-- Every receiver is within its band, and the bus is idle.
pub record InBand (d : Drivers) : Type 0 where
  pub sub_ghz : IsSafe d.cc1101
  pub two_point_four : IsSwept d.sx1281
  pub five_point_eight : IsTuned d.rx5808

abbrev pub IsPercent : ℤ → Type 0
IsPercent x = (pos 0 ≤ℤ x) × (x ≤ℤ pos 100)

read_rssi-IsSwept :
    {F : Type 0} (n : Numbers F) (tuned : Bool) (samples : List (Option F)) (d : Sx1281Driver)
    → IsSwept d
    → IsSwept (read_rssi n tuned samples d).1
unfolding read_rssi read_rssi_dbm
read_rssi-IsSwept n tuned samples d s = elim (Bool-cases d.initialized) [
  | inr cold ↦ simp cold s
  | inl ready ↦ elim (Bool-cases tuned) [
    | inr failed ↦
        simp (ready, failed)
          (record { index = s.index; above = omega arith; below = omega (arith, s.index) })
    | inl done ↦
        simp (ready, done)
          (record { index = omega arith; above = omega arith; below = omega (arith, s.index) })
  ]
]

-- The drivers are in band, and the bus differs in its traffic only.
pub record Steady (b : Bus) (d : Drivers) : Type 0 where
  pub in_band : InBand d
  pub talks : Talks b d.cc1101.bus

pub with_bus-InBand : (b : Bus) (d : Drivers) → IsIdle b → InBand d → InBand (with_bus b d)
with_bus-InBand b d h s = record {
  sub_ghz = on_bus-IsSafe (λ c. b) d.cc1101 h s.sub_ghz;
  two_point_four = s.two_point_four;
  five_point_eight = s.five_point_eight;
}

module _ {F : Type 0} (lib : Library F) (known : IsDocumented lib) where
  read_locked-Steady :
      (f : Found F) (receiver : ℕ) (d : Drivers)
      → InBand d
      → Steady d.cc1101.bus (read_locked lib f receiver d).1
  unfolding read_locked
  read_locked-Steady f receiver d s = elim (Bool-cases (receiver == 0)) [
    | inl first ↦ rw first (record {
      in_band =
          with_bus-InBand (read_sub_ghz d.cc1101.bus).1 d
            (read_rssi-IsIdle d.cc1101.bus s.sub_ghz.idle) s;
      talks = read_rssi-Talks d.cc1101.bus;
    })
    | inr other ↦ elim (Bool-cases (receiver == 1)) [
      | inl second ↦
          rw (other, second)
            (record {
              in_band = record {
                sub_ghz =
                    on_bus-IsSafe (λ b. record b { traffic = lib.radio_traffic b.traffic }) d.cc1101
                      (known.idle d.cc1101.bus.traffic s.sub_ghz.idle) s.sub_ghz;
                two_point_four =
                    read_rssi-IsSwept lib.numbers f.tuned f.samples d.sx1281 s.two_point_four;
                five_point_eight = s.five_point_eight;
              };
              talks = (_, refl);
            })
      | inr unknown ↦
          rw (other, unknown) (record { in_band = s; talks = (d.cc1101.bus.traffic, refl) })
    ]
  ]

  zero-IsPercent : IsPercent (pos 0)
  zero-IsPercent = (omega arith, omega arith)

  -- What a taken bus gives back.
  given_back :
      (obtained : Bool) (b : Bus) (t : Taken obtained b) (e : Drivers)
      → Steady t.bus e
      → Steady b (with_bus (release e.cc1101.bus) e)
  given_back obtained b t e s = record {
    in_band =
        with_bus-InBand (release e.cc1101.bus) e
          (release-IsIdle e.cc1101.bus s.in_band.sub_ghz.idle) s.in_band;
    talks = release-Talks obtained b e.cc1101.bus t s.talks;
  }

  read_shared-Steady :
      (f : Found F) (receiver : ℕ) (d : Drivers)
      → InBand d
      → IsPercent (read_shared lib f receiver d).0
        × Steady d.cc1101.bus (read_shared lib f receiver d).1
  unfolding read_shared
  read_shared-Steady f receiver d s = elim (acquire-cases f.obtained d.cc1101.bus) [
    | inl late ↦
        rw late (zero-IsPercent, record { in_band = s; talks = (d.cc1101.bus.traffic, refl) })
    | inr t ↦
        let ready = with_bus-InBand t.bus d (ap line t.same_traffic ∙ s.sub_ghz.idle) s in
        rw t.answers (
          known.constrained _,
          given_back f.obtained d.cc1101.bus t _
              (read_locked-Steady f receiver (with_bus t.bus d) ready),
        )
  ]

  pub read_receiver_rssi-Steady :
      (f : Found F) (receiver : ℕ) (d : Drivers)
      → InBand d
      → IsPercent (read_receiver_rssi lib f receiver d).0
        × Steady d.cc1101.bus (read_receiver_rssi lib f receiver d).1
  unfolding read_receiver_rssi
  read_receiver_rssi-Steady f receiver d s = elim (Bool-cases (receiver == 2)) [
    | inr shared ↦ rw shared (read_shared-Steady f receiver d s)
    | inl own ↦ rw own (
      known.constrained _,
      record {
        in_band = record {
          sub_ghz = s.sub_ghz;
          two_point_four = s.two_point_four;
          five_point_eight = scan_next_channel-IsTuned _ d.rx5808 s.five_point_eight;
        };
        talks = (d.cc1101.bus.traffic, refl);
      },
    )
  ]

module _ {F : Type 0} (lib : Library F) (known : IsDocumented lib) where
  -- Whatever the state of the receivers, a reading is held between 0 and 100.
  pub read_receiver_rssi-IsPercent :
      (f : Found F) (receiver : ℕ) (d : Drivers) → IsPercent (read_receiver_rssi lib f receiver d).0
  unfolding read_receiver_rssi read_shared
  read_receiver_rssi-IsPercent f receiver d = elim (Bool-cases (receiver == 2)) [
    | inl own ↦ rw own (known.constrained _)
    | inr shared ↦ elim (acquire-cases f.obtained d.cc1101.bus) [
      | inl late ↦ rw (shared, late) (omega arith, omega arith)
      | inr t ↦ rw (shared, t.answers) (known.constrained _)
    ]
  ]

scan_locked-Steady :
    (obtained : Bool) (d : Drivers) → InBand d → Steady d.cc1101.bus (scan_locked obtained d)
unfolding scan_locked
scan_locked-Steady obtained d s = elim (acquire-cases obtained d.cc1101.bus) [
  | inl late ↦ rw late (record { in_band = s; talks = (d.cc1101.bus.traffic, refl) })
  | inr t ↦
      let r = on_bus (λ c. t.bus) d.cc1101 in
      let ready =
        on_bus-IsSafe (λ c. t.bus) d.cc1101 (ap line t.same_traffic ∙ s.sub_ghz.idle) s.sub_ghz in
      let scanned = scan_all_bands-IsSafe r ready in
      rw t.answers (record {
        in_band = record {
          sub_ghz = on_bus-IsSafe release _ (release-IsIdle _ scanned.idle) scanned;
          two_point_four = s.two_point_four;
          five_point_eight = s.five_point_eight;
        };
        talks = release-Talks obtained d.cc1101.bus _ t (scan_all_bands-Talks r);
      })
]

pub count_sweep-Steady :
    (obtained : Bool) (counter : ℕ) (d : Drivers)
    → InBand d
    → Steady d.cc1101.bus (count_sweep obtained counter d).1
unfolding count_sweep
count_sweep-Steady obtained counter d s = elim (Bool-cases (u8 (suc counter) == 10)) [
  | inl tenth ↦ rw tenth (scan_locked-Steady obtained d s)
  | inr between ↦ rw between (record { in_band = s; talks = (d.cc1101.bus.traffic, refl) })
]
