-- ===== src/Monitor/Receivers.antt =====
-- How `taskRFScanning` reads its receivers, and its sweep over the sub-GHz bands. The two Arduino
-- functions, what the radio library does on the bus, and what the radios answer are arguments.
use sky_sweep.Prelude.{ℕ, suc, Bool, Option, List, if◌then◌else◌, ◌==◌, u8}
use sky_sweep.Prelude.Int.{ℤ, pos, negsuc}
use sky_sweep.Spi.Bus.{Event, Bus, acquire, release}
use sky_sweep.Cc1101.Radio.{Radio, read_rssi as read_sub_ghz}
use sky_sweep.Cc1101.Scan.{on_bus, scan_all_bands}
use sky_sweep.Sx1281.Driver.{Numbers, Sx1281Driver, read_rssi}
use sky_sweep.Rx5808.Driver.{Driver, read_rssi as read_pin, scan_next_channel}

-- `map` and `constrain`, and the traffic that the radio library adds.
pub record Library (F : Type 0) : Type 0 where
  pub map_range : ℤ → ℤ → ℤ → ℤ → ℤ → ℤ
  pub constrain : ℤ → ℤ → ℤ → ℤ
  pub numbers : Numbers F
  pub radio_traffic : List Event → List Event

-- The drivers; the bus is that of the sub-GHz receiver.
pub record Drivers : Type 0 where
  pub cc1101 : Radio
  pub sx1281 : Sx1281Driver
  pub rx5808 : Driver

-- What a reading finds: whether the bus is obtained, whether the radio is tuned, its samples, and
-- the readings of the pin of the 5.8 GHz receiver.
pub record Found (F : Type 0) : Type 0 where
  pub obtained : Bool
  pub tuned : Bool
  pub samples : List (Option F)
  pub millivolts : List ℕ

abbrev pub with_bus : Bus → Drivers → Drivers
with_bus b d = record d { cc1101 = on_bus (λ c. b) d.cc1101 }

-- The reading under the lock: of the sub-GHz receiver (0), of the 2.4 GHz receiver (1), or none.
unfoldable pub read_locked : {F : Type 0} → Library F → Found F → ℕ → Drivers → ℤ × Drivers
read_locked lib f receiver d =
    if receiver == 0
    then (let (rssi, b) = read_sub_ghz d.cc1101.bus in
        (lib.map_range rssi (negsuc 119) (negsuc 29) (pos 0) (pos 100), with_bus b d))
    else if receiver == 1
    then (let (rssi, s) = read_rssi lib.numbers f.tuned f.samples d.sx1281 in
        (
          rssi,
          record d {
            cc1101 = on_bus (λ b. record b { traffic = lib.radio_traffic b.traffic }) d.cc1101;
            sx1281 = s;
          },
        ))
    else (pos 0, d)

-- The sub-GHz and 2.4 GHz receivers, under the lock.
unfoldable pub read_shared : {F : Type 0} → Library F → Found F → ℕ → Drivers → ℤ × Drivers
read_shared lib f receiver d =
    let (locked, b) = acquire f.obtained d.cc1101.bus in
    if locked
    then (let (rssi, e) = read_locked lib f receiver (with_bus b d) in
        (lib.constrain rssi (pos 0) (pos 100), with_bus (release e.cc1101.bus) e))
    else (pos 0, with_bus b d)

unfoldable pub read_receiver_rssi : {F : Type 0} → Library F → Found F → ℕ → Drivers → ℤ × Drivers
read_receiver_rssi lib f receiver d =
    if receiver == 2
    then (let (rssi, r) =
          scan_next_channel (read_pin lib.map_range lib.constrain f.millivolts) d.rx5808 in
        (lib.constrain rssi (pos 0) (pos 100), record d { rx5808 = r }))
    else read_shared lib f receiver d

-- The scan of the sub-GHz bands under the lock.
unfoldable pub scan_locked : Bool → Drivers → Drivers
scan_locked obtained d =
    let (locked, b) = acquire obtained d.cc1101.bus in
    if locked
    then (let r = (scan_all_bands (on_bus (λ c. b) d.cc1101)).1 in
        record d { cc1101 = on_bus release r })
    else with_bus b d

-- Every tenth sweep scans the bands; the number is the sweep counter.
unfoldable pub count_sweep : Bool → ℕ → Drivers → ℕ × Drivers
count_sweep obtained sweep_counter d =
    let next = u8 (suc sweep_counter) in
    if next == 10 then (0, scan_locked obtained d) else (next, d)
