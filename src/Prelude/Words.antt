-- ===== src/Prelude/Words.antt =====
-- Casts to the fixed widths, wrapping subtraction, and little-endian words.
use Prim.Native.Nat.{ℕ, ◌+◌, ◌-◌, ◌*◌, ◌%◌, ◌<◌}
use mathlib.Core.List.{List, [], ◌∷◌}

-- A cast to uint8_t.
abbrev pub u8 : ℕ → ℕ
u8 n = n % 256

-- A cast to uint32_t.
abbrev pub u32 : ℕ → ℕ
u32 n = n % 4294967296

-- A cast to uint16_t.
abbrev pub u16 : ℕ → ℕ
u16 n = n % 65536

-- uint32_t a - b, as `millis() - earlier` computes it.
abbrev pub sub32 : ℕ → ℕ → ℕ
sub32 a b = (a + 4294967296 - b) % 4294967296

abbrev pub Bytes : Type 0
Bytes = List ℕ

abbrev pub IsByte : ℕ → Type 0
IsByte b = b < 256

-- The number whose little-endian bytes are the list.
abbrev pub le_number : Bytes → ℕ
le_number [] = 0
le_number (b ∷ bs) = b + 256 * le_number bs
