-- ===== src/Cc1101/Scan.antt =====
-- The operations of `CC1101Driver` that tune the receiver: set-up, bands and scans.
use sky_sweep.Prelude.{
  ℕ, zero, suc, ◌+◌, Bool, true, false, not, ◌||◌, Option, some, List, [], ◌∷◌, if◌then◌else◌, ◌==◌,
  ltb, leb, get_or, u16, u32, ◌>>=◌, store,
}
use sky_sweep.Prelude.Int.{ℤ, negsuc, leb_ℤ}
use sky_sweep.Cc1101.Registers.{
  iocfg2, iocfg0, fifothr, pktctrl0, fsctrl1, mdmcfg1, mdmcfg0, deviatn, mcsm0, foccfg, agcctrl2,
  agcctrl1, agcctrl0, frend1, frend0, fscal3, fscal2, fscal1, fscal0, version, scal, mod_gfsk,
}
use sky_sweep.Spi.Bus.{cc1101, high, Bus, put}
use sky_sweep.Cc1101.Radio.{
  Radio, write_register, send_strobe, reset, set_frequency, set_modulation, set_data_rate,
  set_rx_mode, set_idle_mode, read_rssi, get_chip_version,
}

unfoldable pub write_registers : List (ℕ × ℕ) → Bus → Bus
write_registers [] b = b
write_registers ((address, value) ∷ rest) b = write_registers rest (write_register address value b)

-- The registers that `begin` writes before and after the frequency, the modulation and the rate.
abbrev pub first_registers : List (ℕ × ℕ)
first_registers =
    (iocfg2, 0x29) ∷ (iocfg0, 0x06) ∷ (fifothr, 0x47) ∷ (pktctrl0, 0x05) ∷ (fsctrl1, 0x06) ∷ []

abbrev pub last_registers : List (ℕ × ℕ)
last_registers =
    (mdmcfg1, 0x22)
    ∷ (mdmcfg0, 0xF8)
    ∷ (deviatn, 0x47)
    ∷ (mcsm0, 0x18)
    ∷ (foccfg, 0x16)
    ∷ (agcctrl2, 0x43)
    ∷ (agcctrl1, 0x40)
    ∷ (agcctrl0, 0x91)
    ∷ (frend1, 0x56)
    ∷ (frend0, 0x10)
    ∷ (fscal3, 0xE9)
    ∷ (fscal2, 0x2A)
    ∷ (fscal1, 0x00)
    ∷ (fscal0, 0x1F)
    ∷ []

abbrev pub on_bus : (Bus → Bus) → Radio → Radio
on_bus f r = record r { bus = f r.bus }

-- The part of `begin` behind the check of the version.
unfoldable pub configure : Radio → Radio
configure r =
    let tuned = set_frequency 915000000 (on_bus (write_registers first_registers) r) in
    on_bus set_rx_mode (record tuned {
      bus =
          write_registers last_registers (set_data_rate 250000 (set_modulation mod_gfsk tuned.bus));
      initialized = true;
    })

unfoldable pub begin : Radio → Bool × Radio
begin r =
    let (version, c) = get_chip_version (reset (put (high cc1101) r.bus)) in
    if version == 0 || version == 0xFF
    then (false, record r { bus = c })
    else (true, configure (record r { bus = c }))

-- `BAND_FREQUENCIES`
abbrev pub band_frequencies : List ℕ
band_frequencies = 860000000 ∷ 890000000 ∷ 920000000 ∷ []

-- Tuning as the scans do it: idle, the frequency, a calibration, and back to
-- reception.
unfoldable pub retune : ℕ → Radio → Radio
retune hz r =
    on_bus (λ b. set_rx_mode (send_strobe scal b)) (set_frequency hz (on_bus set_idle_mode r))

unfoldable pub set_band : ℕ → Radio → Radio
set_band band r = if leb 3 band then r else retune (get_or band_frequencies band 0) r

-- The reading at a frequency.
unfoldable pub measure : ℕ → Radio → ℤ × Radio
measure hz r =
    let tuned = retune hz r in
    let (rssi, c) = read_rssi tuned.bus in (rssi, record tuned { bus = c })

-- The end of the scans: the frequency from before is set again.
unfoldable pub restore : ℕ → Radio → Radio
restore saved r = on_bus (λ b. set_rx_mode (send_strobe scal b)) (set_frequency saved r)

-- The loop of `scanAllBands` over the bands that are left: each reading, and whether it is above
-- -75 dBm.
unfoldable pub scan_bands : List ℕ → Radio → List (ℤ × Bool) × Radio
scan_bands [] r = ([], r)
scan_bands (hz ∷ rest) r =
    let (rssi, s) = measure hz r in
    let (results, t) = scan_bands rest s in ((rssi, not (leb_ℤ rssi (negsuc 74))) ∷ results, t)

unfoldable pub scan_all_bands : Radio → List (ℤ × Bool) × Radio
scan_all_bands r =
    let (results, s) = scan_bands band_frequencies r in (results, restore r.current_frequency s)

-- The loop of `spectrumScan`, with the rounds that `idx < maxPoints` leaves: the number of points,
-- the readings, and the receiver.
unfoldable pub scan_points : ℕ → ℕ → ℕ → ℕ → ℕ → List ℤ → Radio → Option (ℕ × List ℤ × Radio)
scan_points zero idx freq end_hz step_hz rssi_out r = some (idx, rssi_out, r)
scan_points (suc n) idx freq end_hz step_hz rssi_out r =
    if leb freq end_hz
    then (store rssi_out idx (measure freq r).0 >>= λ out.
        scan_points n (u16 (suc idx)) (u32 (freq + step_hz)) end_hz step_hz out (measure freq r).1)
    else some (idx, rssi_out, r)

unfoldable pub spectrum_scan : ℕ → ℕ → ℕ → List ℤ → ℕ → Radio → Option (ℕ × List ℤ × Radio)
spectrum_scan start_hz end_hz step_hz rssi_out max_points r =
    if ltb start_hz 855000000 || ltb 925000000 end_hz || ltb end_hz start_hz || step_hz == 0
    then some (0, rssi_out, r)
    else scan_points max_points 0 start_hz end_hz step_hz rssi_out r >>= λ (points, out, s).
        some (points, out, restore r.current_frequency s)
