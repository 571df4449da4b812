-- ===== src/Prelude/Memory.antt =====
-- C arrays of fixed size: an access out of bounds is a fault, `none`.
use Prim.Native.Nat.{ℕ, ◌+◌, ◌≤◌, ◌<◌}
use mathlib.Core.Path.{◌≡◌}
use mathlib.Core.List.{List, ◌++◌}
use mathlib.Core.Option.{Option, none, some}
use native.Mathlib.Omega.{arith}
use sky_sweep.Prelude.Lists.{length, get_elem?, set, take, drop}
use sky_sweep.Prelude.Tests.{ltb, leb, if◌then◌else◌}

infixl 5 ◌>>=◌
abbrev pub ◌>>=◌ {ℓ κ} : {A : Type ℓ} {B : Type κ} → Option A → (A → Option B) → Option B
none >>= f = none
some a >>= f = f a

module _ {ℓ} {A : Type ℓ} where
  -- `a[i]`
  abbrev pub load : List A → ℕ → Option A
  load = get_elem?

  -- `a[i] = v`
  unfoldable pub store : List A → ℕ → A → Option (List A)
  store xs i v = if ltb i (length xs) then some (set xs i v) else none

  -- `memcpy(dst, &src[from], n)`: both arrays must hold the whole range.
  unfoldable pub copy : List A → List A → ℕ → ℕ → Option (List A)
  copy dst src from n =
      if leb n (length dst)
      then if leb (from + n) (length src) then some (take n (drop from src) ++ drop n dst) else none
      else none

  pub store-some : (xs : List A) (i : ℕ) (v : A) → i < length xs → store xs i v ≡ some (set xs i v)
  unfolding store
  store-some xs i v h = ground arith

  pub copy-some :
      (dst src : List A) (from n : ℕ)
      → n ≤ length dst
      → from + n ≤ length src
      → copy dst src from n ≡ some (take n (drop from src) ++ drop n dst)
  unfolding copy
  copy-some dst src from n h k = ground arith
