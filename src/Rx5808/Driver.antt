-- ===== src/Rx5808/Driver.antt =====
-- `RX5808Driver`. The state of the three channel-select pins is part of the driver's record; what
-- `readRSSI` returns is an argument.
use sky_sweep.Prelude.{
  ℕ, zero, suc, ◌+◌, ◌%◌, ◌/◌, u32, Bool, true, false, not, Option, none, some, List, [], ◌∷◌,
  if◌then◌else◌, ◌==◌, ltb, leb, get_or, bit_and,
}
use sky_sweep.Prelude.Int.{ℤ, pos}

-- The fields of `RX5808Driver` that change, and the levels of its pins.
pub record Driver : Type 0 where
  pub channel_1 : Bool
  pub channel_2 : Bool
  pub channel_3 : Bool
  pub current_channel : ℕ
  pub initialized : Bool
  pub scan_started : Bool

-- The constructor; the pins are low.
abbrev pub new_driver : Driver
new_driver = record {
  channel_1 = false;
  channel_2 = false;
  channel_3 = false;
  current_channel = 0;
  initialized = false;
  scan_started = false;
}

-- `kBandEFrequenciesMHz`
abbrev pub band_e_frequencies : List ℕ
band_e_frequencies = 5705 ∷ 5685 ∷ 5665 ∷ 5645 ∷ 5885 ∷ 5905 ∷ 5925 ∷ 5945 ∷ []

unfoldable pub frequency_for_channel : ℕ → ℕ
frequency_for_channel channel = if ltb channel 8 then get_or band_e_frequencies channel 0 else 0

unfoldable pub set_channel : ℕ → Driver → Driver
set_channel channel d = if leb 8 channel then d else record d {
  channel_1 = not (bit_and channel 1 == 0);
  channel_2 = not (bit_and channel 2 == 0);
  channel_3 = not (bit_and channel 4 == 0);
  current_channel = channel;
}

-- `begin`, for the numbers of the three pins.
unfoldable pub begin : ℕ → ℕ → ℕ → Driver → Bool × Driver
begin pin_1 pin_2 pin_3 d =
    if pin_1 == pin_2
    then (false, d)
    else if pin_1 == pin_3
    then (false, d)
    else if pin_2 == pin_3
    then (false, d)
    else (true, record (set_channel 0 d) { initialized = true })

-- The loop of `setFrequency` from a channel on, with the rounds that are left.
unfoldable pub set_frequency_from : ℕ → ℕ → ℕ → Driver → Driver
set_frequency_from zero channel mhz d = d
set_frequency_from (suc n) channel mhz d =
    if frequency_for_channel channel == mhz
    then set_channel channel d
    else set_frequency_from n (suc channel) mhz d

unfoldable pub set_frequency : ℕ → Driver → Driver
set_frequency mhz d = set_frequency_from 8 0 mhz d

-- The sum of some readings of the RSSI pin.
unfoldable pub sum_samples : List ℕ → ℕ → ℕ
sum_samples [] sum = sum
sum_samples (x ∷ xs) sum = sum_samples xs (u32 (sum + x))

-- `readRSSI`, for `map` and `constrain` and for the eight readings in millivolts.
unfoldable pub read_rssi : (ℤ → ℤ → ℤ → ℤ → ℤ → ℤ) → (ℤ → ℤ → ℤ → ℤ) → List ℕ → ℤ
read_rssi map_range constrain samples =
    constrain (map_range (pos (sum_samples samples 0 / 8)) (pos 350) (pos 1400) (pos 0) (pos 100))
      (pos 0) (pos 100)

-- `readRSSIRaw`, for its ten readings.
unfoldable pub read_rssi_raw : List ℕ → ℕ
read_rssi_raw samples = sum_samples samples 0 / 10

-- `scanNextChannel`, for what `readRSSI` returns.
unfoldable pub scan_next_channel : ℤ → Driver → ℤ × Driver
scan_next_channel rssi d =
    if not d.initialized
    then (pos 0, d)
    else if d.scan_started
    then (rssi, set_channel ((d.current_channel + 1) % 8) d)
    else (rssi, record d { scan_started = true })

-- The loops of `scanBand` from a channel on: the readings are stored, and the last channel stays.
unfoldable pub scan_band_from : ℕ → List ℕ → Driver → Driver
scan_band_from channel [] d = d
scan_band_from channel (r ∷ rs) d = scan_band_from (suc channel) rs (set_channel channel d)

-- The loop of `findStrongestChannel` over the readings from a channel on: the strongest channel so
-- far, with its reading or none (-1).
unfoldable pub find_strongest_from : ℕ → List ℕ → ℕ → Option ℕ → ℕ
find_strongest_from channel [] best best_rssi = best
find_strongest_from channel (r ∷ rs) best none =
    find_strongest_from (suc channel) rs channel (some r)
find_strongest_from channel (r ∷ rs) best (some b) =
    if ltb b r
    then find_strongest_from (suc channel) rs channel (some r)
    else find_strongest_from (suc channel) rs best (some b)

-- `findStrongestChannel`, for its eight readings.
unfoldable pub find_strongest_channel : List ℕ → Driver → ℕ × Driver
find_strongest_channel readings d =
    (find_strongest_from 0 readings 0 none, scan_band_from 0 readings d)

unfoldable pub get_current_frequency : Driver → ℕ
get_current_frequency d = frequency_for_channel d.current_channel
