-- ===== src/RemoteId/Tests.antt =====
-- Tests of the Remote ID detector, and its theorems at concrete inputs.
use sky_sweep.Prelude.{ℕ, ◌<◌, ◌≡◌, refl, true, some, [], ◌∷◌, arith, Bytes, replicate, get_elem?}
use sky_sweep.Prelude.Int.{negsuc}
use sky_sweep.RemoteId.Message.{Drone, empty_drone, has_text}
use sky_sweep.RemoteId.Detector.{Detector, new_detector, on_result, cleanup_old_detections}
use sky_sweep.RemoteId.Result.{IsValid, Handles, drone_at, on_result-Handles, location_misses}
use sky_sweep.RemoteId.Cleanup.{known, cleanup_old_detections-recent}

abbrev named : ℕ → ℕ → Drone
named letter seen = record empty_drone {
  uas_id = letter ∷ replicate 20 0;
  id_type = 1;
  last_seen = seen;
  is_valid = true;
}

abbrev two : Detector
two = record (new_detector 5000) {
  detected_drones = named 65 100 ∷ named 66 50000 ∷ replicate 18 empty_drone;
  drone_count = 2;
}

two-IsValid : IsValid two
two-IsValid = record { size = refl; count_in = omega arith }

-- A location in the northern hemisphere.
abbrev location_payload : Bytes
location_payload = 1 ∷ 0 ∷ 33 ∷ 1 ∷ 2 ∷ 3 ∷ 4 ∷ 5 ∷ 6 ∷ 7 ∷ 4 ∷ 0 ∷ 4 ∷ 0 ∷ 9 ∷ 1 ∷ 0 ∷ []

on_result-Handles_example :
    Handles two (on_result 60000 (negsuc 59) true (some location_payload) two)
on_result-Handles_example =
    on_result-Handles 60000 (negsuc 59) true (some location_payload) two two-IsValid

location_misses_example :
    (next : Detector) × (on_result 60000 (negsuc 59) true (some location_payload) two ≡ some next)
    × ((k : ℕ)
        → k < 2
        → has_text (drone_at two k).uas_id ≡ true
        → get_elem? next.detected_drones k ≡ get_elem? two.detected_drones k)
location_misses_example =
    location_misses 60000 (negsuc 59) location_payload two two-IsValid refl (omega arith)

cleanup_old_detections-recent_example :
    (next : Detector) × (cleanup_old_detections 60000 30000 two ≡ some next)
    × (known next ≡ named 66 50000 ∷ [])
    × IsValid next
cleanup_old_detections-recent_example = cleanup_old_detections-recent 60000 30000 two two-IsValid
