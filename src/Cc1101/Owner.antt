-- ===== src/Cc1101/Owner.antt =====
-- The driver of the sub-GHz receiver moves no chip select but its own.
use sky_sweep.Prelude.{
  ℕ, zero, suc, inl, inr, Bool-cases, Option, none, some, List, [], ◌∷◌, ltb, leb, ◌==◌, ◌||◌,
  ◌>>=◌, Bytes, u8, u16, bit_and, get_or, not,
}
use sky_sweep.Prelude.Int.{ℤ}
use sky_sweep.Spi.Bus.{cc1101, high, Bus, put, send}
use sky_sweep.Spi.Line.{Own, own_none, own_sent, own_low, own_high, Own-trans}
use sky_sweep.Cc1101.Radio.{
  Radio, write_register, read_register, send_strobe, read_status_register, reset, get_chip_version,
  write_frequency, set_frequency, set_modulation, set_data_rate, read_rssi, set_rx_mode,
  set_idle_mode, flush_rx_fifo, receive_bytes, receive_frame, receive_data,
}
use sky_sweep.Cc1101.Scan.{
  write_registers, begin, configure, retune, set_band, measure, restore, scan_bands, scan_all_bands,
  scan_points, spectrum_scan, first_registers, last_registers, on_bus, band_frequencies,
}

-- What happened on the bus between the two moved the chip select of the CC1101 only.
abbrev pub Speaks : Bus → Bus → Type 0
Speaks b c = Own cc1101 b.traffic c.traffic

pub write_register-Speaks : (a v : ℕ) (b : Bus) → Speaks b (write_register a v b)
unfolding write_register put send
write_register-Speaks a v b = own_high (own_sent (own_sent (own_low own_none)))

pub read_register-Speaks : (a : ℕ) (b : Bus) → Speaks b (read_register a b).1
unfolding read_register put send
read_register-Speaks a b = own_high (own_sent (own_sent (own_low own_none)))

pub send_strobe-Speaks : (s : ℕ) (b : Bus) → Speaks b (send_strobe s b)
unfolding send_strobe put send
send_strobe-Speaks s b = own_high (own_sent (own_low own_none))

pub read_status_register-Speaks : (a : ℕ) (b : Bus) → Speaks b (read_status_register a b).1
unfolding read_status_register put send
read_status_register-Speaks a b = own_high (own_sent (own_sent (own_low own_none)))

pub reset-Speaks : (b : Bus) → Speaks b (reset b)
unfolding reset send_strobe put send
reset-Speaks b = own_high (own_sent (own_low (own_high (own_low own_none))))

write_registers-Speaks : (rs : List (ℕ × ℕ)) (b : Bus) → Speaks b (write_registers rs b)
unfolding write_registers
write_registers-Speaks [] b = own_none
write_registers-Speaks ((a, v) ∷ rs) b =
    Own-trans (write_register-Speaks a v b) (write_registers-Speaks rs (write_register a v b))

pub set_frequency-Speaks : (hz : ℕ) (r : Radio) → Speaks r.bus (set_frequency hz r).bus
unfolding set_frequency write_frequency
set_frequency-Speaks hz r = elim (Bool-cases (ltb hz 855000000 || ltb 925000000 hz)) [
  | inl out ↦ rw out own_none
  | inr fits ↦ rw fits (
      Own-trans (write_register-Speaks 0x0D _ r.bus)
        (Own-trans (write_register-Speaks 0x0E _ _) (write_register-Speaks 0x0F _ _)))
]

pub restore-Speaks : (hz : ℕ) (r : Radio) → Speaks r.bus (restore hz r).bus
unfolding restore set_rx_mode
restore-Speaks hz r =
    Own-trans (set_frequency-Speaks hz r)
      (Own-trans (send_strobe-Speaks 0x33 (set_frequency hz r).bus) (send_strobe-Speaks 0x34 _))

pub retune-Speaks : (hz : ℕ) (r : Radio) → Speaks r.bus (retune hz r).bus
unfolding retune set_idle_mode set_rx_mode
retune-Speaks hz r =
    let s = on_bus (send_strobe 0x36) r in
    Own-trans (send_strobe-Speaks 0x36 r.bus) (
      Own-trans (set_frequency-Speaks hz s)
        (Own-trans (send_strobe-Speaks 0x33 (set_frequency hz s).bus) (send_strobe-Speaks 0x34 _)))

pub measure-Speaks : (hz : ℕ) (r : Radio) → Speaks r.bus (measure hz r).1.bus
unfolding measure read_rssi
measure-Speaks hz r =
    Own-trans (retune-Speaks hz r) (read_status_register-Speaks 0x34 (retune hz r).bus)

scan_bands-Speaks : (hzs : List ℕ) (r : Radio) → Speaks r.bus (scan_bands hzs r).1.bus
unfolding scan_bands
scan_bands-Speaks [] r = own_none
scan_bands-Speaks (hz ∷ hzs) r =
    Own-trans (measure-Speaks hz r) (scan_bands-Speaks hzs (measure hz r).1)

pub scan_all_bands-Speaks : (r : Radio) → Speaks r.bus (scan_all_bands r).1.bus
unfolding scan_all_bands
scan_all_bands-Speaks r =
    Own-trans (scan_bands-Speaks band_frequencies r)
      (restore-Speaks r.current_frequency (scan_bands band_frequencies r).1)

pub set_band-Speaks : (band : ℕ) (r : Radio) → Speaks r.bus (set_band band r).bus
unfolding set_band
set_band-Speaks band r = elim (Bool-cases (leb 3 band)) [
  | inl out ↦ rw out own_none
  | inr fits ↦ rw fits (retune-Speaks (get_or band_frequencies band 0) r)
]

configure-Speaks : (r : Radio) → Speaks r.bus (configure r).bus
unfolding configure set_modulation set_data_rate set_rx_mode
configure-Speaks r =
    let s = on_bus (write_registers first_registers) r in
    let t = set_frequency 915000000 s in
    Own-trans (write_registers-Speaks first_registers r.bus) (
      Own-trans (set_frequency-Speaks 915000000 s) (
        Own-trans (read_register-Speaks 0x12 t.bus) (
          Own-trans (write_register-Speaks 0x12 _ (read_register 0x12 t.bus).1) (
            Own-trans (write_register-Speaks 0x10 _ _) (
              Own-trans (write_register-Speaks 0x11 _ _) (
                Own-trans (write_registers-Speaks last_registers _)
                  (send_strobe-Speaks 0x34 _)))))))

pub begin-Speaks : (r : Radio) → Speaks r.bus (begin r).1.bus
unfolding begin get_chip_version put
begin-Speaks r =
    let b = put (high cc1101) r.bus in
    let (version, c) = get_chip_version (reset b) in
    let greeted : Speaks r.bus c =
      Own-trans (own_high own_none)
        (Own-trans (reset-Speaks b) (read_status_register-Speaks 0x31 (reset b))) in
    elim (Bool-cases (version == 0 || version == 0xFF)) [
      | inl absent ↦ rw absent greeted
      | inr present ↦ rw present (Own-trans greeted (configure-Speaks (record r { bus = c })))
    ]

-- If there is a result, only the driver's own chip select was moved up to its bus.
abbrev LeadsTo : Bus → Option (Bytes × Bus) → Type 0
LeadsTo b none = Unit
LeadsTo b (some (bytes, c)) = Speaks b c

abbrev pub SpeaksIn : Bus → Option (ℕ × Bytes × Bus) → Type 0
SpeaksIn b none = Unit
SpeaksIn b (some (n, bytes, c)) = Speaks b c

abbrev pub SpeaksBy : Bus → Option (ℕ × List ℤ × Radio) → Type 0
SpeaksBy b none = Unit
SpeaksBy b (some (n, out, r)) = Speaks b r.bus

LeadsTo-bind :
    (b : Bus) (o : Option Bytes) (f : Bytes → Option (Bytes × Bus))
    → ((bytes : Bytes) → LeadsTo b (f bytes))
    → LeadsTo b (o >>= f)
LeadsTo-bind b none f h = tt
LeadsTo-bind b (some bytes) f h = h bytes

receive_bytes-LeadsTo :
    (n i count : ℕ) (buffer : Bytes) (a b : Bus)
    → Speaks a b
    → LeadsTo a (receive_bytes n i count buffer b)
unfolding receive_bytes send
receive_bytes-LeadsTo zero i count buffer a b h = h
receive_bytes-LeadsTo (suc n) i count buffer a b h = elim (Bool-cases (ltb i count)) [
  | inr past ↦ rw past h
  | inl more ↦ rw more (
      LeadsTo-bind a _ _
        (λ next. receive_bytes-LeadsTo n (u8 (suc i)) count next a (send 0 b).1 (own_sent h)))
]

SpeaksIn-closed :
    (b : Bus) (o : Option (Bytes × Bus)) (count : Bytes → ℕ)
    → LeadsTo b o
    → SpeaksIn b (o >>= λ (bytes, c). some (count bytes, bytes, put (high cc1101) c))
unfolding put
SpeaksIn-closed b none count h = tt
SpeaksIn-closed b (some (bytes, c)) count h = own_high h

receive_frame-SpeaksIn :
    (buffer : Bytes) (max_length : ℕ) (a b : Bus)
    → Speaks a b
    → SpeaksIn a (receive_frame buffer max_length b)
unfolding receive_frame put send
receive_frame-SpeaksIn buffer max_length a b h =
    SpeaksIn-closed a _ (λ bytes. _)
      (receive_bytes-LeadsTo max_length 0 _ buffer a _ (own_sent (own_sent (own_low h))))

pub receive_data-SpeaksIn :
    (buffer : Bytes) (max_length : ℕ) (b : Bus) → SpeaksIn b (receive_data buffer max_length b)
unfolding receive_data flush_rx_fifo
receive_data-SpeaksIn buffer max_length b =
    let c = (read_status_register 0x3B b).1 in
    let n = (read_status_register 0x3B b).0 in
    let ready = read_status_register-Speaks 0x3B b in
    elim (Bool-cases (not (bit_and n 0x80 == 0))) [
      | inl over ↦ rw over (Own-trans ready (send_strobe-Speaks 0x3A c))
      | inr good ↦ elim (Bool-cases (bit_and n 0x7F == 0 || ltb max_length (bit_and n 0x7F))) [
        | inl refused ↦ rw (good, refused) ready
        | inr fitting ↦ rw (good, fitting) (receive_frame-SpeaksIn buffer max_length b c ready)
      ]
    ]

SpeaksBy-bind :
    (b : Bus) (o : Option (List ℤ)) (f : List ℤ → Option (ℕ × List ℤ × Radio))
    → ((out : List ℤ) → SpeaksBy b (f out))
    → SpeaksBy b (o >>= f)
SpeaksBy-bind b none f h = tt
SpeaksBy-bind b (some out) f h = h out

scan_points-SpeaksBy :
    (n idx freq end_hz step_hz : ℕ) (out : List ℤ) (b : Bus) (r : Radio)
    → Speaks b r.bus
    → SpeaksBy b (scan_points n idx freq end_hz step_hz out r)
unfolding scan_points
scan_points-SpeaksBy zero idx freq end_hz step_hz out b r h = h
scan_points-SpeaksBy (suc n) idx freq end_hz step_hz out b r h =
    elim (Bool-cases (leb freq end_hz)) [
      | inr past ↦ rw past h
      | inl on ↦ rw on (
          SpeaksBy-bind b _ _ (λ next.
            scan_points-SpeaksBy n (u16 (suc idx)) _ end_hz step_hz next b (measure freq r).1
              (Own-trans h (measure-Speaks freq r))))
    ]

SpeaksBy-restored :
    (hz : ℕ) (b : Bus) (o : Option (ℕ × List ℤ × Radio))
    → SpeaksBy b o
    → SpeaksBy b (o >>= λ (points, out, s). some (points, out, restore hz s))
SpeaksBy-restored hz b none h = tt
SpeaksBy-restored hz b (some (points, out, s)) h = Own-trans h (restore-Speaks hz s)

pub spectrum_scan-SpeaksBy :
    (start_hz end_hz step_hz : ℕ) (out : List ℤ) (max_points : ℕ) (r : Radio)
    → SpeaksBy r.bus (spectrum_scan start_hz end_hz step_hz out max_points r)
unfolding spectrum_scan
spectrum_scan-SpeaksBy start_hz end_hz step_hz out max_points r =
    elim (Bool-cases
      (ltb start_hz 855000000 || ltb 925000000 end_hz || ltb end_hz start_hz || step_hz == 0)) [
        | inl refused ↦ rw refused own_none
        | inr accepted ↦ rw accepted (
            SpeaksBy-restored r.current_frequency r.bus _
              (scan_points-SpeaksBy max_points 0 start_hz end_hz step_hz out r.bus r own_none))
      ]
