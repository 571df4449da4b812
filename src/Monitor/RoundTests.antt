-- ===== src/Monitor/RoundTests.antt =====
-- Concrete drivers, and what they find.
use sky_sweep.Prelude.{
  ℕ, ◌+◌, ◌/◌, refl, inl, inr, Bool-cases, true, some, none, [], ◌∷◌, arith, ltb, ltb→le,
  if◌then◌else◌,
}
use sky_sweep.Prelude.Int.{ℤ, pos, negsuc, ◌≤ℤ◌}
use sky_sweep.Spi.Bus.{sx1281, low, high, sent}
use sky_sweep.Spi.Tests.{new_bus}
use sky_sweep.Cc1101.Radio.{new_radio}
use sky_sweep.Sx1281.Driver.{Numbers, new_driver as new_sx1281}
use sky_sweep.Rx5808.Driver.{new_driver as new_rx5808}
use sky_sweep.Monitor.Receivers.{Library, Drivers, Found}
use sky_sweep.Monitor.Steady.{IsDocumented, InBand}

abbrev clamp : ℤ → ℤ → ℤ → ℤ
clamp (pos n) lowest highest = if ltb 100 n then highest else pos n
clamp (negsuc n) lowest highest = lowest

abbrev halves : Numbers ℕ
halves = record {
  floor = 0;
  nothing = 0;
  add = λ a b. a + b;
  divide = λ a n. a / n;
  percent = λ a. pos a;
}

abbrev pub library : Library ℕ
library = record {
  map_range = λ x a b c d. x;
  constrain = clamp;
  numbers = halves;
  radio_traffic = λ t. high sx1281 ∷ sent 29 ∷ low sx1281 ∷ t;
}

clamp-IsPercent :
    (x : ℤ) → (pos 0 ≤ℤ clamp x (pos 0) (pos 100)) × (clamp x (pos 0) (pos 100) ≤ℤ pos 100)
clamp-IsPercent (negsuc n) = (omega arith, omega arith)
clamp-IsPercent (pos n) = elim (Bool-cases (ltb 100 n)) [
  | inl above ↦ rw above (omega arith, omega arith)
  | inr within ↦ rw within (omega arith, omega (arith, ltb→le 100 n within))
]

pub library-IsDocumented : IsDocumented library
library-IsDocumented = record { constrained = clamp-IsPercent; idle = λ t h. rw h refl }

abbrev pub drivers : Drivers
drivers = record {
  cc1101 = new_radio new_bus;
  sx1281 = record new_sx1281 { initialized = true };
  rx5808 = record new_rx5808 { initialized = true };
}

pub drivers-InBand : InBand drivers
drivers-InBand = record {
  sub_ghz = record { idle = refl; above = omega arith; below = omega arith };
  two_point_four = record { index = omega arith; above = omega arith; below = omega arith };
  five_point_eight = record { channel_in = omega arith; pins = refl };
}

abbrev pub found : Found ℕ
found = record {
  obtained = true;
  tuned = true;
  samples = some 120 ∷ none ∷ some 90 ∷ [];
  millivolts = 900 ∷ 910 ∷ 900 ∷ 905 ∷ 900 ∷ 910 ∷ 900 ∷ 905 ∷ [];
}
