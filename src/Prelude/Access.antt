-- ===== src/Prelude/Access.antt =====
-- Lemmas on the access of lists by index.
use Prim.Native.Nat.{ℕ, zero, suc, ◌<◌}
use mathlib.Core.Path.{◌≡◌, refl, ap}
use mathlib.Core.Logic.{◌≢◌}
use mathlib.Core.List.{List, [], ◌∷◌, ◌++◌}
use mathlib.Core.Option.{some}
use native.Mathlib.Omega.{arith}
use sky_sweep.Prelude.Lists.{length, get_elem?, get_or, set, take, drop}

module _ {ℓ} {A : Type ℓ} where
  pub get_elem?-take :
      (n : ℕ) (xs : List A) (i : ℕ) → i < n → get_elem? (take n xs) i ≡ get_elem? xs i
  get_elem?-take zero xs i h = absurd (omega arith)
  get_elem?-take (suc n) [] i h = refl
  get_elem?-take (suc n) (x ∷ xs) zero h = refl
  get_elem?-take (suc n) (x ∷ xs) (suc i) h = get_elem?-take n xs i (omega arith)

  pub get_elem?-append_length :
      (xs : List A) (y : A) (ys : List A) (i : ℕ)
      → length xs ≡ i
      → get_elem? (xs ++ y ∷ ys) i ≡ some y
  get_elem?-append_length [] y ys zero h = refl
  get_elem?-append_length [] y ys (suc i) h = absurd (omega arith)
  get_elem?-append_length (x ∷ xs) y ys zero h = absurd (omega arith)
  get_elem?-append_length (x ∷ xs) y ys (suc i) h = get_elem?-append_length xs y ys i (omega arith)

  pub get_or-set_self :
      (xs : List A) (i : ℕ) (v d : A) → i < length xs → get_or (set xs i v) i d ≡ v
  get_or-set_self [] i v d h = absurd (omega arith)
  get_or-set_self (x ∷ xs) zero v d h = refl
  get_or-set_self (x ∷ xs) (suc i) v d h = get_or-set_self xs i v d (omega arith)

  pub get_or-set_ne :
      (xs : List A) (i j : ℕ) (v d : A) → i ≢ j → get_or (set xs i v) j d ≡ get_or xs j d
  get_or-set_ne [] i j v d ne = refl
  get_or-set_ne (x ∷ xs) zero zero v d ne = absurd (ne refl)
  get_or-set_ne (x ∷ xs) zero (suc j) v d ne = refl
  get_or-set_ne (x ∷ xs) (suc i) zero v d ne = refl
  get_or-set_ne (x ∷ xs) (suc i) (suc j) v d ne = get_or-set_ne xs i j v d (omega arith)

  pub set-append_left :
      (xs ys : List A) (i : ℕ) (v : A) → i < length xs → set (xs ++ ys) i v ≡ set xs i v ++ ys
  set-append_left [] ys i v h = absurd (omega arith)
  set-append_left (x ∷ xs) ys zero v h = refl
  set-append_left (x ∷ xs) ys (suc i) v h = ap (◌∷◌ x) (set-append_left xs ys i v (omega arith))

  pub set-append_length :
      (xs : List A) (y : A) (ys : List A) (v : A) → set (xs ++ y ∷ ys) (length xs) v ≡ xs ++ v ∷ ys
  set-append_length [] y ys v = refl
  set-append_length (x ∷ xs) y ys v = ap (◌∷◌ x) (set-append_length xs y ys v)

  pub get_elem?-append_left :
      (xs ys : List A) (i : ℕ) → i < length xs → get_elem? (xs ++ ys) i ≡ get_elem? xs i
  get_elem?-append_left [] ys i h = absurd (omega arith)
  get_elem?-append_left (x ∷ xs) ys zero h = refl
  get_elem?-append_left (x ∷ xs) ys (suc i) h = get_elem?-append_left xs ys i (omega arith)

  pub drop-set : (k : ℕ) (xs : List A) (i : ℕ) (v : A) → i < k → drop k (set xs i v) ≡ drop k xs
  drop-set zero xs i v h = absurd (omega arith)
  drop-set (suc k) [] i v h = refl
  drop-set (suc k) (x ∷ xs) zero v h = refl
  drop-set (suc k) (x ∷ xs) (suc i) v h = drop-set k xs i v (omega arith)

  -- What the entry behind the first `i` ones says of the list.
  pub record Split (xs : List A) (i : ℕ) (y : A) (rest : List A) : Type ℓ where
    pub entry : get_elem? xs i ≡ some y
    pub front : take (suc i) xs ≡ take i xs ++ y ∷ []
    pub back : drop (suc i) xs ≡ rest
    pub inside : i < length xs

  pub drop-Split :
      (xs : List A) (i : ℕ) (y : A) (rest : List A) → drop i xs ≡ y ∷ rest → Split xs i y rest
  drop-Split [] zero y rest e = absurd (omega (arith, ap length e))
  drop-Split [] (suc i) y rest e = absurd (omega (arith, ap length e))
  drop-Split (x ∷ xs) zero y rest e = record {
    entry = cc e;
    front = cc e;
    back = cc e;
    inside = omega arith;
  }
  drop-Split (x ∷ xs) (suc i) y rest e =
      let s = drop-Split xs i y rest e in
      record {
        entry = s.entry;
        front = ap (◌∷◌ x) s.front;
        back = s.back;
        inside = omega (arith, s.inside);
      }
