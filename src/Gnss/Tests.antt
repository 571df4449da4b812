-- ===== src/Gnss/Tests.antt =====
-- The geofences at a concrete input, over the natural numbers.
use sky_sweep.Prelude.{ℕ, ◌+◌, ◌-◌, ◌*◌, ◌/◌, ◌≡◌, true, false, [], ◌∷◌, arith, leb, All}
use sky_sweep.Config.Storage.{is_text}
use sky_sweep.Gnss.Receiver.{Floats, GpsModule, new_module, add_geofence, remove_geofence}
use sky_sweep.Gnss.Fences.{remove-add}

abbrev pub whole : Floats ℕ
whole = record {
  zero = 0;
  one = 1;
  two = 2;
  half_circle = 180;
  pi = 3;
  earth = 6371000;
  missing = 0;
  add = λ a b. a + b;
  sub = λ a b. a - b;
  mul = λ a b. a * b;
  div = λ a b. a / b;
  sin = λ a. a;
  cos = λ a. 1;
  sqrt = λ a. a;
  atan2 = λ a b. a;
  at_most = leb;
}

abbrev fenced : GpsModule ℕ
fenced = add_geofence (65 ∷ []) 1 2 3 true (new_module whole)

remove-add_example :
    (remove_geofence (66 ∷ []) (add_geofence (66 ∷ []) 4 5 6 false fenced)
      ≡ remove_geofence (66 ∷ []) fenced)
    × All
        (λ z. is_text z.name (66 ∷ []) ≡ false)
        (remove_geofence (66 ∷ []) (add_geofence (66 ∷ []) 4 5 6 false fenced)).geofences
remove-add_example = remove-add (66 ∷ []) 4 5 6 false fenced (omega arith)
