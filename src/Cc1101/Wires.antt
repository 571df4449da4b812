-- ===== src/Cc1101/Wires.antt =====
-- The scans change nothing on the bus but its traffic.
use sky_sweep.Prelude.{
  ℕ, ◌≡◌, refl, ap, ◌∙◌, inl, inr, Bool, Bool-cases, ◌||◌, List, [], ◌∷◌, ◌==◌, ltb,
}
use sky_sweep.Spi.Bus.{cc1101, high, Event, Bus, put, send, release}
use sky_sweep.Cc1101.Registers.{mod_gfsk}
use sky_sweep.Spi.Lock.{Taken}
use sky_sweep.Cc1101.Radio.{
  Radio, write_register, read_status_register, send_strobe, write_frequency, set_frequency,
  set_rx_mode, set_idle_mode, read_rssi, read_register, reset, set_modulation, set_data_rate,
  get_chip_version,
}
use sky_sweep.Cc1101.Scan.{
  retune, measure, restore, scan_bands, scan_all_bands, on_bus, band_frequencies, write_registers,
  first_registers, last_registers, configure, begin,
}

-- The second bus is the first one with other traffic.
abbrev pub Talks : Bus → Bus → Type 0
Talks b c = (t : List Event) × (c ≡ record b { traffic = t })

pub Talks-trans : (a b c : Bus) → Talks a b → Talks b c → Talks a c
Talks-trans a b c (s, p) (t, q) = (t, q ∙ ap (λ (x : Bus). record x { traffic = t }) p)

set_frequency-Talks : (hz : ℕ) (r : Radio) → Talks r.bus (set_frequency hz r).bus
unfolding set_frequency write_frequency write_register put send
set_frequency-Talks hz r = elim (Bool-cases (ltb hz 855000000 || ltb 925000000 hz)) [
  | inl out ↦ rw out (_, refl)
  | inr within ↦ rw within (_, refl)
]

pub restore-Talks : (hz : ℕ) (r : Radio) → Talks r.bus (restore hz r).bus
unfolding restore set_rx_mode send_strobe put send
restore-Talks hz r =
    Talks-trans r.bus (set_frequency hz r).bus _ (set_frequency-Talks hz r) (_, refl)

pub retune-Talks : (hz : ℕ) (r : Radio) → Talks r.bus (retune hz r).bus
unfolding retune set_idle_mode set_rx_mode send_strobe put send
retune-Talks hz r =
    let s = on_bus set_idle_mode r in
    Talks-trans r.bus s.bus _ (_, refl)
      (Talks-trans s.bus (set_frequency hz s).bus _ (set_frequency-Talks hz s) (_, refl))

pub read_rssi-Talks : (b : Bus) → Talks b (read_rssi b).1
unfolding read_rssi read_status_register put send
read_rssi-Talks b = (_, refl)

pub measure-Talks : (hz : ℕ) (r : Radio) → Talks r.bus (measure hz r).1.bus
unfolding measure
measure-Talks hz r =
    Talks-trans r.bus (retune hz r).bus _ (retune-Talks hz r) (read_rssi-Talks (retune hz r).bus)

scan_bands-Talks : (hzs : List ℕ) (r : Radio) → Talks r.bus (scan_bands hzs r).1.bus
unfolding scan_bands
scan_bands-Talks [] r = (r.bus.traffic, refl)
scan_bands-Talks (hz ∷ hzs) r =
    let s = (measure hz r).1 in
    Talks-trans r.bus s.bus _ (measure-Talks hz r) (scan_bands-Talks hzs s)

pub scan_all_bands-Talks : (r : Radio) → Talks r.bus (scan_all_bands r).1.bus
unfolding scan_all_bands
scan_all_bands-Talks r =
    let s = (scan_bands band_frequencies r).1 in
    Talks-trans r.bus s.bus _ (scan_bands-Talks band_frequencies r)
      (restore-Talks r.current_frequency s)

release-traffic :
    (b : Bus) (t : List Event)
    → release (record b { traffic = t }) ≡ record (release b) { traffic = t }
unfolding release
release-traffic b t = elim (Bool-cases b.created) [
  | inl made ↦ simp made refl
  | inr missing ↦ simp missing refl
]

-- What talks while the bus is taken leaves it as it was before, once it is given back.
pub release-Talks :
    (obtained : Bool) (b c : Bus) (t : Taken obtained b) → Talks t.bus c → Talks b (release c)
release-Talks obtained b c t (s, p) =
    (s, ap release p ∙ release-traffic t.bus s ∙ ap (λ (x : Bus). record x { traffic = s }) t.given)

write_registers-Talks : (rs : List (ℕ × ℕ)) (b : Bus) → Talks b (write_registers rs b)
unfolding write_registers write_register put send
write_registers-Talks [] b = (b.traffic, refl)
write_registers-Talks ((address, value) ∷ rs) b =
    let c = write_register address value b in
    Talks-trans b c _ (_, refl) (write_registers-Talks rs c)

set_up-Talks : (b : Bus) → Talks b (set_data_rate 250000 (set_modulation mod_gfsk b))
unfolding set_data_rate set_modulation write_register read_register put send
set_up-Talks b = (_, refl)

configure-Talks : (r : Radio) → Talks r.bus (configure r).bus
unfolding configure set_rx_mode send_strobe put send
configure-Talks r =
    let b = write_registers first_registers r.bus in
    let c = (set_frequency 915000000 (on_bus (write_registers first_registers) r)).bus in
    let d = set_data_rate 250000 (set_modulation mod_gfsk c) in
    let e = write_registers last_registers d in
    Talks-trans r.bus b _ (write_registers-Talks first_registers r.bus) (
      Talks-trans b c _ (set_frequency-Talks 915000000 (on_bus (write_registers first_registers) r))
        (Talks-trans c d _ (set_up-Talks c)
          (Talks-trans d e _ (write_registers-Talks last_registers d) (_, refl))))

greeted-Talks : (b : Bus) → Talks b (get_chip_version (reset (put (high cc1101) b))).1
unfolding get_chip_version read_status_register reset send_strobe put send
greeted-Talks b = (_, refl)

pub begin-Talks : (r : Radio) → Talks r.bus (begin r).1.bus
unfolding begin
begin-Talks r =
    let (version, c) = get_chip_version (reset (put (high cc1101) r.bus)) in
    elim (Bool-cases (version == 0 || version == 0xFF)) [
      | inl absent ↦ rw absent (greeted-Talks r.bus)
      | inr present ↦
          rw present
            (Talks-trans r.bus c _ (greeted-Talks r.bus) (configure-Talks (record r { bus = c })))
    ]
