-- ===== src/Cc1101/Tuning.antt =====
-- Which frequency the registers of the chip hold.
use sky_sweep.Prelude.{
  ℕ, ◌+◌, ◌*◌, ◌≤◌, ◌<◌, ◌≡◌, refl, false, ◌||◌, Option, none, some, List, [], ◌∷◌, if◌then◌else◌,
  ◌==◌, arith, ltb,
}
use sky_sweep.Spi.Bus.{cc1101, Event, low, high, sent, Bus, put, send}
use sky_sweep.Cc1101.Radio.{
  Radio, write_register, send_strobe, frequency_word, write_frequency, set_frequency, set_rx_mode,
  set_idle_mode,
}
use sky_sweep.Cc1101.Scan.{restore, retune, on_bus}

-- The byte that the last write access to a register of the CC1101 sent.
abbrev pub register : ℕ → List Event → Option ℕ
register a [] = none
register a (high cc1101 ∷ sent v ∷ sent b ∷ low cc1101 ∷ t) =
    if b == a then some v else register a t
register a (e ∷ t) = register a t

-- The three frequency registers hold the word of a frequency: the nearest step of 26 MHz / 2^16
-- below it.
pub record IsTuned (hz : ℕ) (b : Bus) : Type 0 where
  pub high_byte : ℕ
  pub middle_byte : ℕ
  pub low_byte : ℕ
  pub freq2 : register 0x0D b.traffic ≡ some high_byte
  pub freq1 : register 0x0E b.traffic ≡ some middle_byte
  pub freq0 : register 0x0F b.traffic ≡ some low_byte
  pub below : (high_byte * 65536 + middle_byte * 256 + low_byte) * 26000000 ≤ hz * 65536
  pub close : hz * 65536 < (high_byte * 65536 + middle_byte * 256 + low_byte + 1) * 26000000

write_frequency-IsTuned :
    (hz : ℕ) (b : Bus) → hz ≤ 925000000 → IsTuned hz (write_frequency (frequency_word hz) b)
unfolding write_frequency frequency_word write_register put send
write_frequency-IsTuned hz b h = record {
  high_byte = _;
  middle_byte = _;
  low_byte = _;
  freq2 = refl;
  freq1 = refl;
  freq0 = refl;
  below = omega arith;
  close = omega arith;
}

send_strobe-IsTuned : (hz s : ℕ) (b : Bus) → IsTuned hz b → IsTuned hz (send_strobe s b)
unfolding send_strobe put send
send_strobe-IsTuned hz s b t = record {
  high_byte = _;
  middle_byte = _;
  low_byte = _;
  freq2 = t.freq2;
  freq1 = t.freq1;
  freq0 = t.freq0;
  below = t.below;
  close = t.close;
}

pub set_frequency-IsTuned :
    (hz : ℕ) (r : Radio)
    → 855000000 ≤ hz
    → hz ≤ 925000000
    → IsTuned hz (set_frequency hz r).bus × ((set_frequency hz r).current_frequency ≡ hz)
unfolding set_frequency
set_frequency-IsTuned hz r low_end high_end =
    let e : (ltb hz 855000000 || ltb 925000000 hz) ≡ false = ground arith in
    rw e (write_frequency-IsTuned hz r.bus high_end, refl)

pub restore-IsTuned :
    (hz : ℕ) (r : Radio)
    → 855000000 ≤ hz
    → hz ≤ 925000000
    → IsTuned hz (restore hz r).bus × ((restore hz r).current_frequency ≡ hz)
unfolding restore set_rx_mode
restore-IsTuned hz r low_end high_end =
    let (t, e) = set_frequency-IsTuned hz r low_end high_end in
    (send_strobe-IsTuned hz 0x34 _ (send_strobe-IsTuned hz 0x33 _ t), e)

pub retune-IsTuned :
    (hz : ℕ) (r : Radio) → 855000000 ≤ hz → hz ≤ 925000000 → IsTuned hz (retune hz r).bus
unfolding retune set_rx_mode
retune-IsTuned hz r low_end high_end =
    let (t, e) = set_frequency-IsTuned hz (on_bus set_idle_mode r) low_end high_end in
    send_strobe-IsTuned hz 0x34 _ (send_strobe-IsTuned hz 0x33 _ t)
