-- ===== src/RemoteId/Cleanup.antt =====
-- `cleanupOldDetections` keeps the recent drones, in their order, and no others.
use mathlib.Core.List.{append_assoc}
use sky_sweep.Prelude.{
  append_nil, ℕ, suc, ◌+◌, ◌≤◌, ◌<◌, ◌≡◌, refl, ap, sym, ◌∙◌, inl, inr, Option, some, List, [], ◌∷◌,
  ◌++◌, arith, if◌then◌else◌, ◌==◌, ==_iff, leb, u8, sub32, Bool-cases, length, take, drop, set,
  length-append, length-set, length-take, take-append-drop, take-set, drop-set, drop-Split,
  store-some,
}
use sky_sweep.RemoteId.Message.{Drone}
use sky_sweep.RemoteId.Detector.{Detector, cleanup_from, cleanup_old_detections}
use sky_sweep.RemoteId.Result.{IsValid}

-- The drones heard within the timeout.
abbrev pub recent : ℕ → ℕ → List Drone → List Drone
recent now timeout_ms [] = []
recent now timeout_ms (d ∷ ds) =
    if leb (sub32 now d.last_seen) timeout_ms
    then d ∷ recent now timeout_ms ds
    else recent now timeout_ms ds

-- The loop returns the number of drones kept, and they stand in front.
pub record Keeps (kept : List Drone) (size : ℕ) (r : Option (ℕ × List Drone)) : Type 0 where
  pub drones : List Drone
  pub returns : r ≡ some (length kept, drones)
  pub front : take (length kept) drones ≡ kept
  pub same_size : length drones ≡ size

module _ (now timeout_ms : ℕ) where
  cleanup_from-Keeps :
      (xs kept rest drones : List Drone) (i : ℕ)
      → take (length kept) drones ≡ kept
      → drop i drones ≡ xs ++ rest
      → length kept ≤ i
      → i + length xs < 256
      → Keeps
          (kept ++ recent now timeout_ms xs)
          (length drones)
          (cleanup_from now timeout_ms (length xs) i (length kept) drones)
  unfolding cleanup_from
  cleanup_from-Keeps [] kept rest drones i front back behind small =
      let all : kept ++ [] ≡ kept = append_nil kept in
      rw all (record { drones = drones; returns = refl; front = front; same_size = refl })
  cleanup_from-Keeps (x ∷ xs) kept rest drones i front back behind small =
      let s = drop-Split drones i x (xs ++ rest) back in
      let next : u8 (length kept + 1) ≡ length (kept ++ x ∷ []) =
        omega (arith, length-append kept (x ∷ [])) in
      let longer : length (kept ++ x ∷ []) ≡ suc (length kept) =
        omega (arith, length-append kept (x ∷ [])) in
      let more : (moved : List Drone)
          → take (suc (length kept)) moved ≡ kept ++ x ∷ []
          → drop (suc i) moved ≡ xs ++ rest
          → length moved ≡ length drones
          → Keeps (kept ++ (x ∷ recent now timeout_ms xs)) (length drones)
              (cleanup_from now timeout_ms (length xs) (suc i) (length (kept ++ x ∷ [])) moved) =
        λ moved f b l.
          let k =
            cleanup_from-Keeps xs (kept ++ x ∷ []) rest moved (suc i) (rw longer f) b (omega arith)
              (omega arith) in
          let whole = append_assoc kept (x ∷ []) (recent now timeout_ms xs) in
          record {
            drones = k.drones;
            returns = k.returns ∙ ap (λ ys. some (length ys, k.drones)) whole;
            front = ap (λ ys. take (length ys) k.drones) (sym whole) ∙ k.front ∙ whole;
            same_size = k.same_size ∙ l;
          } in
      rw s.entry (elim (Bool-cases (leb (sub32 now x.last_seen) timeout_ms)) [
        | inl fresh ↦
            rw (fresh, next)
              (elim (Bool-cases (length kept == i)) [
                | inl here ↦
                    let e : length kept ≡ i = (==_iff _ _).0 here in
                    rw here (
                      more drones
                        (ap (λ n. take (suc n) drones) e
                          ∙ s.front
                          ∙ ap (λ ys. ys ++ x ∷ []) (ap (λ n. take n drones) (sym e) ∙ front))
                        s.back refl)
                | inr before ↦
                    rw (before, store-some drones (length kept) x (omega (arith, s.inside)))
                      (more (set drones (length kept) x)
                        (take-set drones (length kept) x (omega (arith, s.inside))
                          ∙ ap (λ ys. ys ++ x ∷ []) front)
                        (drop-set (suc i) drones (length kept) x (omega arith) ∙ s.back)
                        (length-set drones (length kept) x))
              ])
        | inr stale ↦ rw stale (
            cleanup_from-Keeps xs kept rest drones (suc i) front s.back (omega arith) (omega arith))
      ])

-- The drones of the table.
abbrev pub known : Detector → List Drone
known d = take d.drone_count d.detected_drones

-- On a valid table cleanupOldDetections returns; the drones are then those of before that were
-- heard within the timeout (modulo 2^32), in the same order, and the table is valid.
pub cleanup_old_detections-recent :
    (now timeout_ms : ℕ) (d : Detector)
    → IsValid d
    → (next : Detector) × (cleanup_old_detections now timeout_ms d ≡ some next)
      × (known next ≡ recent now timeout_ms (known d))
      × IsValid next
unfolding cleanup_old_detections
cleanup_old_detections-recent now timeout_ms d v =
    let size : length (known d) ≡ d.drone_count =
      omega (arith, length-take d.drone_count d.detected_drones, v.size, v.count_in) in
    let k = rw size at (
      cleanup_from-Keeps now timeout_ms (known d) [] (drop d.drone_count d.detected_drones)
        d.detected_drones 0 refl (sym (take-append-drop d.drone_count d.detected_drones))
        (omega arith) (omega (arith, v.count_in))) in
    (
      record d {
        detected_drones = k.drones;
        drone_count = length (recent now timeout_ms (known d));
      },
      rw k.returns,
      k.front,
      record {
        size = k.same_size ∙ v.size;
        count_in = omega (arith, recent_shorter (known d), v.count_in);
      },
    )
  where
    recent_shorter : (ds : List Drone) → length (recent now timeout_ms ds) ≤ length ds
    recent_shorter [] = omega arith
    recent_shorter (x ∷ ds) = ground (arith, recent_shorter ds)
