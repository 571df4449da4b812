-- ===== src/Power/Gauge.antt =====
-- The MAX17048 fuel gauge. What the I2C bus answers is an argument; the percentage, which the code
-- computes in floating point without rounding (a 16-bit number over 256), is its exact value.
use sky_sweep.Prelude.{
  ℕ, ◌+◌, ◌*◌, ◌/◌, Option, none, some, not, min, if◌then◌else◌, ◌==◌, u16, bit_or,
}

-- The answers to a register access: the code of `endTransmission`, the count of `requestFrom`, and
-- the two bytes that are read.
pub record Answer : Type 0 where
  pub code : ℕ
  pub received : ℕ
  pub high : ℕ
  pub low : ℕ

unfoldable pub read_max17048_register : Answer → Option ℕ
read_max17048_register a =
    if not (a.code == 0)
    then none
    else if not (a.received == 2)
    then none
    else some (u16 (bit_or a.low (u16 (a.high * 256))))

-- `constrain(stateOfCharge, 0.0f, 100.0f) + 0.5f`, taken to a whole number.
unfoldable pub charge_percent : ℕ → ℕ
charge_percent raw_soc = (min raw_soc 25600 + 128) / 256

-- The accesses to the two registers.
pub record Gauge : Type 0 where
  pub vcell : Answer
  pub soc : Answer

unfoldable pub soc_percent : Option ℕ → Option ℕ
soc_percent none = none
soc_percent (some raw_soc) = some (charge_percent raw_soc)

unfoldable pub read_gauge_from : Option ℕ → Option ℕ → Option ℕ
read_gauge_from none soc = none
read_gauge_from (some raw_vcell) soc = soc_percent soc

-- The percentage of a reading of the battery, if both registers can be read.
unfoldable pub gauge_percent : Gauge → Option ℕ
gauge_percent g = read_gauge_from (read_max17048_register g.vcell) (read_max17048_register g.soc)
