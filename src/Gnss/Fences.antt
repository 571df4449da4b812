-- ===== src/Gnss/Fences.antt =====
-- Adding and removing geofences, and what the check answers.
use sky_sweep.Prelude.{
  ◌≤◌, ◌≡◌, refl, ap, Bool, true, false, List, [], ◌∷◌, ◌++◌, All, if◌then◌else◌, ==_refl, length,
  take_all, Bytes,
}
use sky_sweep.Config.Storage.{is_text}
use sky_sweep.Gnss.Receiver.{GeofenceZone, GpsModule, add_geofence, keep_others, remove_geofence}

is_text_refl : (xs : Bytes) → is_text xs xs ≡ true
is_text_refl [] = refl
is_text_refl (x ∷ xs) = rw (==_refl x) (is_text_refl xs)

module _ {F : Type 0} where
  keep_others-last :
      (name : Bytes) (zs : List (GeofenceZone F)) (z : GeofenceZone F)
      → is_text z.name name ≡ true
      → keep_others name (zs ++ z ∷ []) ≡ keep_others name zs
  unfolding keep_others
  keep_others-last name [] z same = rw same refl
  keep_others-last name (y ∷ ys) z same =
      ap (λ rest. if is_text y.name name then rest else y ∷ rest) (keep_others-last name ys z same)

  -- A zone is kept if its name differs.
  keep-none :
      (name : Bytes) (z : GeofenceZone F) (rest : List (GeofenceZone F)) (same : Bool)
      → is_text z.name name ≡ same
      → All (λ y. is_text y.name name ≡ false) rest
      → All (λ y. is_text y.name name ≡ false) (if same then rest else z ∷ rest)
  keep-none name z rest true e none_left = none_left
  keep-none name z rest false e none_left = (e, none_left)

  keep_others-none :
      (name : Bytes) (zs : List (GeofenceZone F))
      → All (λ z. is_text z.name name ≡ false) (keep_others name zs)
  unfolding keep_others
  keep_others-none name [] = tt
  keep_others-none name (z ∷ zs) =
      keep-none name z (keep_others name zs) (is_text z.name name) refl (keep_others-none name zs)

  -- Removing a geofence by a name of at most 31 characters after adding one of that name leaves the
  -- module as removing it without the addition, with no geofence of that name.
  pub remove-add :
      (name : Bytes) (lat lon radius : F) (alert_on_entry : Bool) (m : GpsModule F)
      → length name ≤ 31
      → (remove_geofence name (add_geofence name lat lon radius alert_on_entry m)
          ≡ remove_geofence name m)
        × All
            (λ z. is_text z.name name ≡ false)
            (remove_geofence name (add_geofence name lat lon radius alert_on_entry m)).geofences
  unfolding remove_geofence add_geofence
  remove-add name lat lon radius alert_on_entry m short = (
    ap (λ zs. record m { geofences = zs })
        (keep_others-last name m.geofences _ (rw (take_all 31 name short) (is_text_refl name))),
    keep_others-none name _,
  )
