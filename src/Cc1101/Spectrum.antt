-- ===== src/Cc1101/Spectrum.antt =====
-- What the scans measure, and what they leave behind.
use sky_sweep.Prelude.{
  ℕ, zero, suc, ◌+◌, ◌≤◌, ◌<◌, ◌≡◌, refl, ap, inl, inr, false, ◌||◌, Bool-cases, some, List, [],
  ◌∷◌, ◌++◌, if◌then◌else◌, ◌==◌, arith, ltb, map, leb, length, drop, set, store-some, u16, u32,
  leb→le, length-set, Option, All, u8,
}
use sky_sweep.Prelude.Int.{ℤ}
use sky_sweep.Spi.Bus.{cc1101, low, sent, Bus, put, send}
use sky_sweep.Spi.Line.{OnlySubGhz, own_none, Own-trans}
use sky_sweep.Cc1101.Radio.{Radio, cast_int8, rssi_dbm, read_rssi, read_status_register}
use sky_sweep.Cc1101.Scan.{
  measure, retune, restore, scan_points, spectrum_scan, scan_all_bands, scan_bands,
  band_frequencies,
}
use sky_sweep.Cc1101.Safety.{IsSafe}
use sky_sweep.Cc1101.Tuning.{IsTuned, restore-IsTuned, retune-IsTuned}
use sky_sweep.Cc1101.Wires.{Talks, Talks-trans, retune-Talks, read_rssi-Talks, restore-Talks}
use sky_sweep.Cc1101.Owner.{retune-Speaks, read_status_register-Speaks, restore-Speaks}

-- The frequencies from one on, in steps, up to an end and at most so many.
abbrev pub grid : ℕ → ℕ → ℕ → ℕ → List ℕ
grid zero freq end_hz step_hz = []
grid (suc n) freq end_hz step_hz =
    if leb freq end_hz then freq ∷ grid n (freq + step_hz) end_hz step_hz else []

-- The readings at each of these frequencies in turn.
abbrev pub readings : List ℕ → Radio → List ℤ
readings [] r = []
readings (hz ∷ hzs) r = (measure hz r).0 ∷ readings hzs (measure hz r).1

abbrev pub after_readings : List ℕ → Radio → Radio
after_readings [] r = r
after_readings (hz ∷ hzs) r = after_readings hzs (measure hz r).1

-- The list with the entries from an index on replaced.
abbrev pub overlay : ℕ → List ℤ → List ℤ → List ℤ
overlay zero xs out = xs ++ drop (length xs) out
overlay (suc i) xs [] = []
overlay (suc i) xs (x ∷ out) = x ∷ overlay i xs out

overlay-empty : (i : ℕ) (out : List ℤ) → overlay i [] out ≡ out
overlay-empty zero out = refl
overlay-empty (suc i) [] = refl
overlay-empty (suc i) (x ∷ out) = ap (◌∷◌ x) (overlay-empty i out)

overlay-set :
    (i : ℕ) (x : ℤ) (xs out : List ℤ)
    → i < length out
    → overlay (suc i) xs (set out i x) ≡ overlay i (x ∷ xs) out
overlay-set i x xs [] h = absurd (omega arith)
overlay-set zero x xs (o ∷ out) h = refl
overlay-set (suc i) x xs (o ∷ out) h = ap (◌∷◌ o) (overlay-set i x xs out (omega arith))

scan_points-grid :
    (n idx freq end_hz step_hz : ℕ) (out : List ℤ) (r : Radio)
    → idx + n ≤ length out
    → idx + n < 65536
    → end_hz + step_hz < 4294967296
    → scan_points n idx freq end_hz step_hz out r
      ≡ some (
        idx + length (grid n freq end_hz step_hz),
        overlay idx (readings (grid n freq end_hz step_hz) r) out,
        after_readings (grid n freq end_hz step_hz) r,
      )
unfolding scan_points
scan_points-grid zero idx freq end_hz step_hz out r fits small narrow =
    rw (overlay-empty idx out) (ap (λ k. some (k, out, r)) (omega arith))
scan_points-grid (suc n) idx freq end_hz step_hz out r fits small narrow =
    elim (Bool-cases (leb freq end_hz)) [
      | inr past ↦ rw (past, overlay-empty idx out) (ap (λ k. some (k, out, r)) (omega arith))
      | inl on ↦
          let x = (measure freq r).0 in
          let s = (measure freq r).1 in
          let under = leb→le freq end_hz on in
          let i : u16 (suc idx) ≡ suc idx = omega arith in
          let f : u32 (freq + step_hz) ≡ freq + step_hz = omega arith in
          let later =
            scan_points-grid n (suc idx) (freq + step_hz) end_hz step_hz (set out idx x) s
              (omega (arith, length-set out idx x, fits)) (omega arith) narrow in
          rw
            (
              on,
              store-some out idx x (omega arith),
              i,
              f,
              later,
              overlay-set idx x (readings (grid n (freq + step_hz) end_hz step_hz) s) out
                  (omega arith),
            )
            (ap
              (λ k. some (
                k,
                overlay idx (x ∷ readings (grid n (freq + step_hz) end_hz step_hz) s) out,
                after_readings (grid n (freq + step_hz) end_hz step_hz) s,
              ))
              (omega arith))
    ]

length-readings : (hzs : List ℕ) (r : Radio) → length (readings hzs r) ≡ length hzs
length-readings [] r = refl
length-readings (hz ∷ hzs) r = ap suc (length-readings hzs (measure hz r).1)

-- The receiver is back on the frequency it had, in the register and in the driver.
abbrev pub IsBack : Radio → Radio → Type 0
IsBack r s = IsTuned r.current_frequency s.bus × (s.current_frequency ≡ r.current_frequency)

-- What happened on the bus between the two: the driver's own chip was addressed, nothing else.
pub record Leads (b c : Bus) : Type 0 where
  pub talks : Talks b c
  pub own : OnlySubGhz b.traffic c.traffic

Leads-trans : {a b c : Bus} → Leads a b → Leads b c → Leads a c
Leads-trans {a} {b} {c} p q = record {
  talks = Talks-trans a b c p.talks q.talks;
  own = Own-trans p.own q.own;
}

-- The signal strength that the CC1101 answers in a state of the bus to a read of its register RSSI
-- (0x34, with the bits of a status read).
pub answered : Bus → ℤ
answered b = cast_int8 (rssi_dbm (u8 (b.device (sent 0 ∷ sent 0xF4 ∷ low cc1101 ∷ b.traffic))))

-- From a state of the bus on to the last one there are readings, each taken while the frequency
-- registers of the chip hold its frequency.
pub data Readings (last : Bus) : Bus → List ℕ → List ℤ → Type 0 where
  finished : {b : Bus} → Leads b last → Readings last b [] []
  reads :
      {b : Bus} {hzs : List ℕ} {values : List ℤ} {hz : ℕ} (c : Bus)
      → Leads b c
      → IsTuned hz c
      → Readings last c hzs values
      → Readings last b (hz ∷ hzs) (answered c ∷ values)

abbrev InBand : ℕ → Type 0
InBand hz = (855000000 ≤ hz) × (hz ≤ 925000000)

grid-InBand :
    (n freq end_hz step_hz : ℕ)
    → 855000000 ≤ freq
    → end_hz ≤ 925000000
    → All InBand (grid n freq end_hz step_hz)
grid-InBand zero freq end_hz step_hz above below = tt
grid-InBand (suc n) freq end_hz step_hz above below = elim (Bool-cases (leb freq end_hz)) [
  | inr past ↦ rw past tt
  | inl on ↦
      let under = leb→le freq end_hz on in
      rw on
        ((above, omega arith), grid-InBand n (freq + step_hz) end_hz step_hz (omega arith) below)
]

readings-Readings :
    (hzs : List ℕ) (r : Radio) (b last : Bus)
    → All InBand hzs
    → Leads b r.bus
    → Leads (after_readings hzs r).bus last
    → Readings last b hzs (readings hzs r)
unfolding answered measure read_rssi read_status_register put send
readings-Readings [] r b last fit before after = finished (Leads-trans before after)
readings-Readings (hz ∷ hzs) r b last ((above, below), fit) before after =
    let tuned = retune hz r in
    let there : Leads r.bus tuned.bus = record {
      talks = retune-Talks hz r;
      own = retune-Speaks hz r;
    } in
    let read : Leads tuned.bus (measure hz r).1.bus = record {
      talks = read_rssi-Talks tuned.bus;
      own = read_status_register-Speaks 0x34 tuned.bus;
    } in
    reads tuned.bus (Leads-trans before there) (retune-IsTuned hz r above below)
      (readings-Readings hzs (measure hz r).1 tuned.bus last fit read after)

-- A scan that ended with these readings, and left the receiver as it found it.
pub record Scanned (r : Radio) (hzs : List ℕ) (out : List ℤ) (result : Option (ℕ × List ℤ × Radio))
    : Type 0 where
  pub values : List ℤ
  pub next : Radio
  pub returns : result ≡ some (length hzs, values ++ drop (length hzs) out, next)
  pub taken : Readings next.bus r.bus hzs values
  pub back : IsBack r next

-- A spectrum scan within 855 to 925 MHz, with a step that does not wrap and room for its points,
-- ends; for the start and each step on up to the end, at most maxPoints, it reads the RSSI register
-- of the CC1101 in turn, each time while the frequency registers of the chip hold that frequency to
-- within 26 MHz / 2^16 below it, and addresses no other chip; it stores those readings and no more,
-- and sets the old frequency again, in the driver and so in the registers.
pub spectrum_scan-grid :
    (start_hz end_hz step_hz : ℕ) (out : List ℤ) (max_points : ℕ) (r : Radio)
    → 855000000 ≤ start_hz
    → start_hz ≤ end_hz
    → end_hz ≤ 925000000
    → 0 < step_hz
    → end_hz + step_hz < 4294967296
    → max_points ≤ length out
    → max_points < 65536
    → IsSafe r
    → Scanned r
        (grid max_points start_hz end_hz step_hz)
        out
        (spectrum_scan start_hz end_hz step_hz out max_points r)
unfolding spectrum_scan
spectrum_scan-grid start_hz end_hz step_hz out max_points r above order below steps narrow fits
      small safe =
    let g = grid max_points start_hz end_hz step_hz in
    let accepted : (ltb start_hz 855000000
          || ltb 925000000 end_hz
          || ltb end_hz start_hz
          || step_hz == 0)
        ≡ false =
      ground arith in
    let swept =
      scan_points-grid max_points 0 start_hz end_hz step_hz out r (omega arith) (omega arith)
        narrow in
    let s = after_readings g r in
    let restored : Leads s.bus (restore r.current_frequency s).bus = record {
      talks = restore-Talks r.current_frequency s;
      own = restore-Speaks r.current_frequency s;
    } in
    record {
      values = readings g r;
      next = restore r.current_frequency s;
      returns =
          rw (accepted, swept, length-readings g r)
            (ap (λ k. some (k, readings g r ++ drop (length g) out, restore r.current_frequency s))
              (omega arith));
      taken =
          readings-Readings g r r.bus _ (grid-InBand max_points start_hz end_hz step_hz above below)
            (record { talks = (r.bus.traffic, refl); own = own_none }) restored;
      back = restore-IsTuned r.current_frequency s safe.above safe.below;
    }

pub scan_all_bands-IsBack :
    (r : Radio)
    → IsSafe r
    → IsBack r (scan_all_bands r).1
      × (map (λ result. result.0) (scan_all_bands r).0 ≡ readings band_frequencies r)
unfolding scan_all_bands scan_bands
scan_all_bands-IsBack r safe = (restore-IsTuned r.current_frequency _ safe.above safe.below, refl)
