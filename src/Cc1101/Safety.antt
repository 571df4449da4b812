-- ===== src/Cc1101/Safety.antt =====
-- What every operation of the sub-GHz receiver keeps: the rules of the bus, and the fitted band.
use sky_sweep.Prelude.{
  ℕ, zero, suc, ◌≤◌, ◌≡◌, inl, inr, Bool-cases, Option, none, some, List, [], ◌∷◌, arith, ltb, leb,
  ◌==◌, ◌||◌, bit_or, ◌>>=◌, store-some, set, length, length-set, u16, ◌+◌, ◌<◌, get_or,
}
use sky_sweep.Prelude.Int.{ℤ}
use sky_sweep.Spi.Bus.{cc1101, high, Bus, put}
use sky_sweep.Spi.Line.{IsIdle, put-high-IsIdle, put-low, put-high, send-Selects}
use sky_sweep.Cc1101.Radio.{
  Radio, write_register, read_register, send_strobe, read_status_register, reset, get_chip_version,
  write_frequency, set_frequency, set_modulation, set_data_rate, read_rssi, set_rx_mode,
  set_idle_mode,
}
use sky_sweep.Cc1101.Scan.{
  write_registers, begin, configure, retune, set_band, measure, restore, scan_bands, scan_all_bands,
  scan_points, spectrum_scan, first_registers, last_registers, on_bus, band_frequencies,
}

-- A session with the chip: one byte, or two of which the second is answered.
pub write_register-IsIdle : (a v : ℕ) (b : Bus) → IsIdle b → IsIdle (write_register a v b)
unfolding write_register
write_register-IsIdle a v b h =
    put-high cc1101 _ (send-Selects cc1101 v _ (send-Selects cc1101 a _ (put-low cc1101 b h)))

pub send_strobe-IsIdle : (s : ℕ) (b : Bus) → IsIdle b → IsIdle (send_strobe s b)
unfolding send_strobe
send_strobe-IsIdle s b h = put-high cc1101 _ (send-Selects cc1101 s _ (put-low cc1101 b h))

pub read_status_register-IsIdle : (a : ℕ) (b : Bus) → IsIdle b → IsIdle (read_status_register a b).1
unfolding read_status_register
read_status_register-IsIdle a b h =
    put-high cc1101 _
      (send-Selects cc1101 0 _ (send-Selects cc1101 (bit_or a 0xC0) _ (put-low cc1101 b h)))

pub read_register-IsIdle : (a : ℕ) (b : Bus) → IsIdle b → IsIdle (read_register a b).1
unfolding read_register
read_register-IsIdle a b h =
    put-high cc1101 _
      (send-Selects cc1101 0 _ (send-Selects cc1101 (bit_or a 0x80) _ (put-low cc1101 b h)))

pub reset-IsIdle : (b : Bus) → IsIdle b → IsIdle (reset b)
unfolding reset
reset-IsIdle b h = send_strobe-IsIdle 0x30 _ (put-high cc1101 _ (put-low cc1101 b h))

write_registers-IsIdle : (rs : List (ℕ × ℕ)) (b : Bus) → IsIdle b → IsIdle (write_registers rs b)
unfolding write_registers
write_registers-IsIdle [] b h = h
write_registers-IsIdle ((a, v) ∷ rs) b h =
    write_registers-IsIdle rs (write_register a v b) (write_register-IsIdle a v b h)

-- The bus is idle and the frequency lies in the contract of the fitted path.
pub record IsSafe (r : Radio) : Type 0 where
  pub idle : IsIdle r.bus
  pub above : 855000000 ≤ r.current_frequency
  pub below : r.current_frequency ≤ 925000000

pub on_bus-IsSafe : (f : Bus → Bus) (r : Radio) → IsIdle (f r.bus) → IsSafe r → IsSafe (on_bus f r)
on_bus-IsSafe f r h s = record { idle = h; above = s.above; below = s.below }

pub set_frequency-IsSafe : (hz : ℕ) (r : Radio) → IsSafe r → IsSafe (set_frequency hz r)
unfolding set_frequency write_frequency
set_frequency-IsSafe hz r s = elim (Bool-cases (ltb hz 855000000 || ltb 925000000 hz)) [
  | inl out ↦ rw out s
  | inr fits ↦ rw fits (record {
    idle =
        write_register-IsIdle 0x0F _ _
          (write_register-IsIdle 0x0E _ _ (write_register-IsIdle 0x0D _ _ s.idle));
    above = ground (arith, fits);
    below = ground (arith, fits);
  })
]

pub retune-IsSafe : (hz : ℕ) (r : Radio) → IsSafe r → IsSafe (retune hz r)
unfolding retune set_idle_mode set_rx_mode
retune-IsSafe hz r s =
    let t =
      set_frequency-IsSafe hz _
        (on_bus-IsSafe set_idle_mode r (send_strobe-IsIdle 0x36 r.bus s.idle) s) in
    on_bus-IsSafe (λ b. set_rx_mode (send_strobe 0x33 b)) _
      (send_strobe-IsIdle 0x34 _ (send_strobe-IsIdle 0x33 _ t.idle)) t

pub read_rssi-IsIdle : (b : Bus) → IsIdle b → IsIdle (read_rssi b).1
unfolding read_rssi
read_rssi-IsIdle b h = read_status_register-IsIdle 0x34 b h

pub measure-IsSafe : (hz : ℕ) (r : Radio) → IsSafe r → IsSafe (measure hz r).1
unfolding measure
measure-IsSafe hz r s =
    on_bus-IsSafe (λ b. (read_rssi b).1) (retune hz r)
      (read_rssi-IsIdle _ (retune-IsSafe hz r s).idle) (retune-IsSafe hz r s)

restore-IsSafe : (hz : ℕ) (r : Radio) → IsSafe r → IsSafe (restore hz r)
unfolding restore set_rx_mode
restore-IsSafe hz r s =
    let t = set_frequency-IsSafe hz r s in
    on_bus-IsSafe (λ b. set_rx_mode (send_strobe 0x33 b)) _
      (send_strobe-IsIdle 0x34 _ (send_strobe-IsIdle 0x33 _ t.idle)) t

scan_bands-IsSafe : (hzs : List ℕ) (r : Radio) → IsSafe r → IsSafe (scan_bands hzs r).1
unfolding scan_bands
scan_bands-IsSafe [] r s = s
scan_bands-IsSafe (hz ∷ hzs) r s = scan_bands-IsSafe hzs (measure hz r).1 (measure-IsSafe hz r s)

configure-IsSafe : (r : Radio) → IsSafe r → IsSafe (configure r)
unfolding configure set_modulation set_data_rate set_rx_mode
configure-IsSafe r s =
    let t = set_frequency-IsSafe 915000000 _ (
      on_bus-IsSafe (write_registers first_registers) r
        (write_registers-IsIdle first_registers _ s.idle) s) in
    record {
      idle = send_strobe-IsIdle 0x34 _ (
          write_registers-IsIdle last_registers _ (
            write_register-IsIdle 0x11 _ _ (
              write_register-IsIdle 0x10 _ _
                (write_register-IsIdle 0x12 _ _ (read_register-IsIdle 0x12 _ t.idle)))));
      above = t.above;
      below = t.below;
    }

pub begin-IsSafe : (r : Radio) → IsSafe r → IsSafe (begin r).1
unfolding begin get_chip_version
begin-IsSafe r s =
    let ready =
      read_status_register-IsIdle 0x31 _ (reset-IsIdle _ (put-high-IsIdle cc1101 r.bus s.idle)) in
    let c = (get_chip_version (reset (put (high cc1101) r.bus))).1 in
    let version = (get_chip_version (reset (put (high cc1101) r.bus))).0 in
    elim (Bool-cases (version == 0 || version == 0xFF)) [
      | inl absent ↦ rw absent (on_bus-IsSafe (λ b. c) r ready s)
      | inr present ↦ rw present (configure-IsSafe _ (on_bus-IsSafe (λ b. c) r ready s))
    ]

pub set_band-IsSafe : (band : ℕ) (r : Radio) → IsSafe r → IsSafe (set_band band r)
unfolding set_band
set_band-IsSafe band r s = elim (Bool-cases (leb 3 band)) [
  | inl out ↦ rw out s
  | inr fits ↦ rw fits (retune-IsSafe (get_or band_frequencies band 0) r s)
]

pub scan_all_bands-IsSafe : (r : Radio) → IsSafe r → IsSafe (scan_all_bands r).1
unfolding scan_all_bands
scan_all_bands-IsSafe r s =
    restore-IsSafe r.current_frequency _ (scan_bands-IsSafe band_frequencies r s)

-- There is a result, and its receiver is safe.
abbrev pub Keeps : Option (ℕ × List ℤ × Radio) → Type 0
Keeps none = ⊥
Keeps (some (n, out, r)) = IsSafe r

scan_points-Keeps :
    (n idx freq end_hz step_hz : ℕ) (out : List ℤ) (r : Radio)
    → idx + n ≤ length out
    → idx + n < 65536
    → IsSafe r
    → Keeps (scan_points n idx freq end_hz step_hz out r)
unfolding scan_points
scan_points-Keeps zero idx freq end_hz step_hz out r fits small s = s
scan_points-Keeps (suc n) idx freq end_hz step_hz out r fits small s =
    elim (Bool-cases (leb freq end_hz)) [
      | inr past ↦ rw past s
      | inl on ↦
          let x = (measure freq r).0 in
          let i : u16 (suc idx) ≡ suc idx = omega arith in
          rw (on, store-some out idx x (omega arith), i)
            (scan_points-Keeps n (suc idx) _ end_hz step_hz (set out idx x) _
              (omega (arith, length-set out idx x, fits)) (omega arith) (measure-IsSafe freq r s))
    ]

Keeps-restore :
    (hz : ℕ) (o : Option (ℕ × List ℤ × Radio))
    → Keeps o
    → Keeps (o >>= λ (points, out, t). some (points, out, restore hz t))
Keeps-restore hz none s = absurd s
Keeps-restore hz (some (n, out, r)) s = restore-IsSafe hz r s

pub spectrum_scan-Keeps :
    (start_hz end_hz step_hz : ℕ) (out : List ℤ) (max_points : ℕ) (r : Radio)
    → max_points ≤ length out
    → max_points < 65536
    → IsSafe r
    → Keeps (spectrum_scan start_hz end_hz step_hz out max_points r)
unfolding spectrum_scan
spectrum_scan-Keeps start_hz end_hz step_hz out max_points r fits small s =
    elim (Bool-cases
      (ltb start_hz 855000000 || ltb 925000000 end_hz || ltb end_hz start_hz || step_hz == 0)) [
        | inl refused ↦ rw refused s
        | inr accepted ↦ rw accepted (
            Keeps-restore r.current_frequency _ (
              scan_points-Keeps max_points 0 start_hz end_hz step_hz out r (omega arith)
                (omega arith) s))
      ]
