-- ===== src/Prelude/Bits.antt =====
-- `|` of disjoint fields and `&` with a mask of low bits, as arithmetic, at every width.
use Prim.Native.Nat.{digits, bitwise, bit_and-bitwise, bit_or-bitwise}
use native.Mathlib.Nat.{le_refl, pow-suc, one-le-pow}
use sky_sweep.Prelude.{
  ℕ, zero, suc, ◌+◌, ◌-◌, ◌*◌, ◌/◌, ◌%◌, ◌^◌, ◌≤◌, ◌<◌, min, max, bit_and, bit_or, ◌≡◌, refl, ap,
  arith,
}

module _ (end : ℕ → ℕ) (digit : ℕ → ℕ → ℕ) where
  -- More fuel than `a` has digits makes no difference.
  fuel_enough : (n m a b : ℕ) → a ≤ n → a ≤ m → digits end digit n a b ≡ digits end digit m a b
  fuel_enough n m zero b p q = empty n m
    where
      empty : (n m : ℕ) → digits end digit n zero b ≡ digits end digit m zero b
      empty zero zero = refl
      empty zero (suc m) = refl
      empty (suc n) zero = refl
      empty (suc n) (suc m) = refl
  fuel_enough zero m (suc a) b p q = absurd (omega arith)
  fuel_enough (suc n) zero (suc a) b p q = absurd (omega arith)
  fuel_enough (suc n) (suc m) (suc a) b p q =
      ap (λ t. t * 2 + digit (suc a % 2) (b % 2))
        (fuel_enough n m (suc a / 2) (b / 2) (omega arith) (omega arith))

  bitwise_digit :
      (b a : ℕ)
      → bitwise end digit (suc a) b
        ≡ digit (suc a % 2) (b % 2) + 2 * bitwise end digit (suc a / 2) (b / 2)
  bitwise_digit b a =
      let half = suc a / 2 in
      omega (arith, fuel_enough a half half (b / 2) (omega arith) (omega arith))

-- The lowest digit of `|` and of `&`, and the rest.
bit_or_digit : (b a : ℕ) → bit_or a b ≡ max (a % 2) (b % 2) + 2 * bit_or (a / 2) (b / 2)
bit_or_digit b zero = simp bit_or-bitwise (omega arith)
bit_or_digit b (suc a) = simp bit_or-bitwise (bitwise_digit (λ y. y) max b a)

bit_and_digit : (b a : ℕ) → bit_and a b ≡ min (a % 2) (b % 2) + 2 * bit_and (a / 2) (b / 2)
bit_and_digit b zero = simp bit_and-bitwise (omega arith)
bit_and_digit b (suc a) = simp bit_and-bitwise (bitwise_digit (λ y. 0) min b a)

zero-bit_or : (b : ℕ) → bit_or 0 b ≡ b
zero-bit_or b = bit_or-bitwise 0 b

double : (q k : ℕ) → q * 2 ^ suc k ≡ 2 * (q * 2 ^ k)
double q k = omega (arith, ap (λ (t : ℕ). q * t) (pow-suc 2 k))

-- `r | (q << k)` is a sum when `r` fits `k` bits.
pub bit_or-shifted : (k q r : ℕ) → r < 2 ^ k → bit_or r (q * 2 ^ k) ≡ r + q * 2 ^ k
bit_or-shifted zero q r h = let e : r ≡ 0 = omega arith in rw (e, zero-bit_or) (omega arith)
bit_or-shifted (suc k) q r h = ground (
  arith,
  bit_or_digit (q * 2 ^ suc k) r,
  double q k,
  pow-suc 2 k,
  bit_or-shifted k q (r / 2) (omega (arith, pow-suc 2 k)),
)

bit_and-zero_below : (n a : ℕ) → a ≤ n → bit_and a 0 ≡ 0
bit_and-zero_below n zero h = bit_and-bitwise 0 0
bit_and-zero_below zero (suc a) h = absurd (omega arith)
bit_and-zero_below (suc n) (suc a) h =
    omega (arith, bit_and_digit 0 (suc a), bit_and-zero_below n (suc a / 2) (omega arith))

masked_sum : (k q r : ℕ) → r < 2 ^ k → bit_and (q * 2 ^ k + r) (2 ^ k - 1) ≡ r
masked_sum zero q r h = omega (arith, bit_and-zero_below (q * 1 + r) (q * 1 + r) (le_refl _))
masked_sum (suc k) q r h = ground (
  arith,
  bit_and_digit (2 ^ suc k - 1) (q * 2 ^ suc k + r),
  double q k,
  pow-suc 2 k,
  one-le-pow k 2,
  masked_sum k q (r / 2) (omega (arith, pow-suc 2 k)),
)

-- A mask of `k` low bits leaves the remainder by `2 ^ k`.
pub bit_and_mask : (k a : ℕ) → bit_and a (2 ^ k - 1) ≡ a % 2 ^ k
bit_and_mask k a = ground (arith, one-le-pow k 2, masked_sum k (a / 2 ^ k) (a % 2 ^ k))
