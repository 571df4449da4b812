-- ===== src/Cc1101/Session.antt =====
-- Any use of the sub-GHz receiver.
use sky_sweep.Prelude.{
  ℕ, ◌≤◌, ◌<◌, ◌≡◌, refl, Option, none, some, List, [], ◌∷◌, Bytes, length, ◌>>=◌, All, subst,
}
use sky_sweep.Prelude.Int.{ℤ}
use sky_sweep.Spi.Bus.{Bus}
use sky_sweep.Spi.Line.{IsIdle, OnlySubGhz, own_none, Own-trans}
use sky_sweep.Cc1101.Radio.{
  Radio, set_frequency, set_modulation, set_data_rate, set_channel, set_rx_mode, set_idle_mode,
  read_rssi, get_lqi, is_carrier_detected, receive_data, flush_rx_fifo, flush_tx_fifo, is_connected,
  get_chip_version, reset, send_strobe, read_status_register,
}
use sky_sweep.Cc1101.Scan.{begin, set_band, scan_all_bands, spectrum_scan, on_bus}
use sky_sweep.Cc1101.Safety.{
  IsSafe, on_bus-IsSafe, write_register-IsIdle, send_strobe-IsIdle, read_register-IsIdle,
  read_status_register-IsIdle, reset-IsIdle, set_frequency-IsSafe, begin-IsSafe, set_band-IsSafe,
  scan_all_bands-IsSafe, Keeps, spectrum_scan-Keeps,
}
use sky_sweep.Cc1101.Owner.{
  Speaks, SpeaksIn, SpeaksBy, write_register-Speaks, read_register-Speaks, send_strobe-Speaks,
  read_status_register-Speaks, reset-Speaks, set_frequency-Speaks, begin-Speaks, set_band-Speaks,
  scan_all_bands-Speaks, receive_data-SpeaksIn, spectrum_scan-SpeaksBy,
}
use sky_sweep.Cc1101.Receive.{receive_data-Receives}

-- One call of a public operation, with the buffers that it is given.
pub data Operation : Type 0 where
  begins resets receives_on idles reads_rssi reads_lqi senses_carrier : Operation
  flushes_rx flushes_tx checks scans_bands : Operation
  tunes modulates rates selects sets_band : ℕ → Operation
  receives : Bytes → ℕ → Operation
  sweeps : ℕ → ℕ → ℕ → List ℤ → ℕ → Operation

abbrev pub kept : {A : Type 0} → Radio → Option (ℕ × A × Bus) → Option Radio
kept r o = o >>= λ (n, a, b). some (on_bus (λ c. b) r)

abbrev pub swept : Option (ℕ × List ℤ × Radio) → Option Radio
swept o = o >>= λ (n, a, s). some s

abbrev pub run : Operation → Radio → Option Radio
run begins r = some (begin r).1
run resets r = some (on_bus reset r)
run receives_on r = some (on_bus set_rx_mode r)
run idles r = some (on_bus set_idle_mode r)
run reads_rssi r = some (on_bus (λ b. (read_rssi b).1) r)
run reads_lqi r = some (on_bus (λ b. (get_lqi b).1) r)
run senses_carrier r = some (on_bus (λ b. (is_carrier_detected b).1) r)
run flushes_rx r = some (on_bus flush_rx_fifo r)
run flushes_tx r = some (on_bus flush_tx_fifo r)
run checks r = some (on_bus (λ b. (is_connected b).1) r)
run scans_bands r = some (scan_all_bands r).1
run (tunes hz) r = some (set_frequency hz r)
run (modulates m) r = some (on_bus (set_modulation m) r)
run (rates baud) r = some (on_bus (set_data_rate baud) r)
run (selects channel) r = some (on_bus (set_channel channel) r)
run (sets_band band) r = some (set_band band r)
run (receives buffer max_length) r = kept r (receive_data buffer max_length r.bus)
run (sweeps start_hz end_hz step_hz out max_points) r =
    swept (spectrum_scan start_hz end_hz step_hz out max_points r)

-- The buffers hold what the caller says they do.
abbrev pub Fits : Operation → Type 0
Fits (receives buffer max_length) = (max_length ≤ length buffer) × (max_length < 256)
Fits (sweeps start_hz end_hz step_hz out max_points) =
    (max_points ≤ length out) × (max_points < 65536)
Fits operation = Unit

abbrev pub run_all : List Operation → Radio → Option Radio
run_all [] r = some r
run_all (o ∷ os) r = run o r >>= λ s. run_all os s

-- The operations return; the receiver is safe then, and no other chip select was moved.
pub record Runs (r : Radio) (result : Option Radio) : Type 0 where
  pub next : Radio
  pub returns : result ≡ some next
  pub safe : IsSafe next
  pub own : OnlySubGhz r.bus.traffic next.bus.traffic

ran : (r s : Radio) → IsSafe s → Speaks r.bus s.bus → Runs r (some s)
ran r s safe own = record { next = s; returns = refl; safe = safe; own = own }

swept-Runs :
    (r : Radio) (o : Option (ℕ × List ℤ × Radio)) → Keeps o → SpeaksBy r.bus o → Runs r (swept o)
swept-Runs r none k own = absurd k
swept-Runs r (some (n, out, s)) k own = ran r s k own

-- What the operations on the bus alone keep.
on_bus-Runs :
    (f : Bus → Bus) (r : Radio)
    → IsSafe r
    → IsIdle (f r.bus)
    → Speaks r.bus (f r.bus)
    → Runs r (some (on_bus f r))
on_bus-Runs f r s h own = ran r (on_bus f r) (on_bus-IsSafe f r h s) own

-- The operations that send a strobe, and those that read a status register.
strobe-Runs : (x : ℕ) (r : Radio) → IsSafe r → Runs r (some (on_bus (send_strobe x) r))
strobe-Runs x r s =
    on_bus-Runs (send_strobe x) r s (send_strobe-IsIdle x r.bus s.idle) (send_strobe-Speaks x r.bus)

status-Runs :
    (x : ℕ) (r : Radio) → IsSafe r → Runs r (some (on_bus (λ b. (read_status_register x b).1) r))
status-Runs x r s =
    on_bus-Runs (λ b. (read_status_register x b).1) r s (read_status_register-IsIdle x r.bus s.idle)
      (read_status_register-Speaks x r.bus)

run-Runs : (o : Operation) (r : Radio) → Fits o → IsSafe r → Runs r (run o r)
unfolding set_rx_mode set_idle_mode read_rssi get_lqi is_carrier_detected flush_rx_fifo
    flush_tx_fifo is_connected get_chip_version set_modulation set_data_rate set_channel
run-Runs begins r f s = ran r _ (begin-IsSafe r s) (begin-Speaks r)
run-Runs resets r f s = on_bus-Runs reset r s (reset-IsIdle r.bus s.idle) (reset-Speaks r.bus)
run-Runs receives_on r f s = strobe-Runs 0x34 r s
run-Runs idles r f s = strobe-Runs 0x36 r s
run-Runs reads_rssi r f s = status-Runs 0x34 r s
run-Runs reads_lqi r f s = status-Runs 0x33 r s
run-Runs senses_carrier r f s = status-Runs 0x38 r s
run-Runs flushes_rx r f s = strobe-Runs 0x3A r s
run-Runs flushes_tx r f s = strobe-Runs 0x3B r s
run-Runs checks r f s = status-Runs 0x31 r s
run-Runs scans_bands r f s = ran r _ (scan_all_bands-IsSafe r s) (scan_all_bands-Speaks r)
run-Runs (tunes hz) r f s = ran r _ (set_frequency-IsSafe hz r s) (set_frequency-Speaks hz r)
run-Runs (modulates m) r f s =
    on_bus-Runs (set_modulation m) r s
      (write_register-IsIdle 0x12 _ _ (read_register-IsIdle 0x12 r.bus s.idle))
      (Own-trans (read_register-Speaks 0x12 r.bus) (write_register-Speaks 0x12 _ _))
run-Runs (rates baud) r f s =
    on_bus-Runs (set_data_rate baud) r s
      (write_register-IsIdle 0x11 _ _ (write_register-IsIdle 0x10 _ r.bus s.idle))
      (Own-trans (write_register-Speaks 0x10 _ r.bus) (write_register-Speaks 0x11 _ _))
run-Runs (selects channel) r f s =
    on_bus-Runs (set_channel channel) r s (write_register-IsIdle 0x0A channel r.bus s.idle)
      (write_register-Speaks 0x0A channel r.bus)
run-Runs (sets_band band) r f s = ran r _ (set_band-IsSafe band r s) (set_band-Speaks band r)
run-Runs (receives buffer max_length) r (fits, small) s =
    let v = receive_data-Receives buffer max_length r.bus fits small s.idle in
    let own = subst (SpeaksIn r.bus) v.returns (receive_data-SpeaksIn buffer max_length r.bus) in
    rw v.returns (on_bus-Runs (λ b. v.bus) r s v.idle own)
run-Runs (sweeps start_hz end_hz step_hz out max_points) r (fits, small) s =
    swept-Runs r _ (spectrum_scan-Keeps start_hz end_hz step_hz out max_points r fits small s)
      (spectrum_scan-SpeaksBy start_hz end_hz step_hz out max_points r)

-- Any calls of the CC1101 driver whose buffers are as long as the limits passed with them return,
-- without an access outside a buffer; the frequency stays between 855 and 925 MHz, no chip select
-- but that of the CC1101 is moved, bytes are only sent while it is selected and no other chip is,
-- and no chip is selected at the end, if the frequency and the bus were so before.
pub run_all-Runs :
    (os : List Operation) (r : Radio) → All Fits os → IsSafe r → Runs r (run_all os r)
run_all-Runs [] r f s = ran r r s own_none
run_all-Runs (o ∷ os) r (f, fs) s =
    let v = run-Runs o r f s in
    let more = run_all-Runs os v.next fs v.safe in
    rw v.returns (record {
      next = more.next;
      returns = more.returns;
      safe = more.safe;
      own = Own-trans v.own more.own;
    })
