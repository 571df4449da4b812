-- ===== src/Sx1281/Driver.antt =====
-- `SX1281Driver`. The radio library's answers are arguments: whether a call succeeds, and the four
-- samples, of which a failed one is none (NAN); so are the floating-point operations.
use sky_sweep.Prelude.{
  ℕ, suc, ◌+◌, ◌*◌, ◌%◌, Bool, true, false, not, Option, none, some, List, [], ◌∷◌, if◌then◌else◌,
  ◌==◌, u8,
}
use sky_sweep.Prelude.Int.{ℤ}

-- The operations on a type of numbers; `floor` is `kRssiFloorDbm`, and `percent` the normalized
-- value, rounded and held between 0 and 100.
pub record Numbers (F : Type 0) : Type 0 where
  pub floor : F
  pub nothing : F
  pub add : F → F → F
  pub divide : F → ℕ → F
  pub percent : F → ℤ

-- The fields that change; the frequency is a whole number of MHz.
pub record Sx1281Driver : Type 0 where
  pub initialized : Bool
  pub channel_index : ℕ
  pub current_frequency_mhz : ℕ

-- The constructor, with `kSweepStartMHz`.
abbrev pub new_driver : Sx1281Driver
new_driver = record { initialized = false; channel_index = 0; current_frequency_mhz = 2400 }

unfoldable pub begin : Bool → Bool → Sx1281Driver → Bool × Sx1281Driver
begin started receives d =
    if not started
    then (false, d)
    else if not receives
    then (false, d)
    else (true, record d { initialized = true })

-- The loop over the samples: their sum, and how many are valid.
unfoldable pub sum_samples : {F : Type 0} → Numbers F → List (Option F) → F × ℕ → F × ℕ
sum_samples n [] (sum, valid) = (sum, valid)
sum_samples n (none ∷ rest) (sum, valid) = sum_samples n rest (sum, valid)
sum_samples n (some rssi ∷ rest) (sum, valid) = sum_samples n rest (n.add sum rssi, u8 (suc valid))

-- `readRSSIDbm`, for whether the radio was tuned; there are 21 channels, 5 MHz apart.
unfoldable pub read_rssi_dbm :
    {F : Type 0} → Numbers F → Bool → List (Option F) → Sx1281Driver → F × Sx1281Driver
read_rssi_dbm n tuned samples d =
    let t = record d { current_frequency_mhz = 2400 + d.channel_index * 5 } in
    let (sum, valid) = sum_samples n samples (n.nothing, 0) in
    if not d.initialized then (n.floor, d) else if not tuned then (n.floor, t) else (
      if valid == 0 then n.floor else n.divide sum valid,
      record t { channel_index = (t.channel_index + 1) % 21 },
    )

unfoldable pub read_rssi :
    {F : Type 0} → Numbers F → Bool → List (Option F) → Sx1281Driver → ℤ × Sx1281Driver
read_rssi n tuned samples d =
    let (rssi_dbm, t) = read_rssi_dbm n tuned samples d in (n.percent rssi_dbm, t)
