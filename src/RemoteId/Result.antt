-- ===== src/RemoteId/Result.antt =====
-- What `onResult` does to the table of drones.
use sky_sweep.Prelude.{
  ℕ, zero, suc, ◌+◌, ◌≤◌, ◌<◌, ◌≡◌, refl, ap, sym, ◌∙◌, inl, inr, Bool, true, false, ◌&&◌, Option,
  none, some, List, [], ◌∷◌, arith, ltb, u8, Bytes, Bool-cases, length, get_or, get_elem?,
  get_elem?-eq-get_or, get_elem?-set_ne, set, length-set, store-some, replicate, ◌⊎◌, false≢true,
}
use sky_sweep.Prelude.Int.{ℤ}
use sky_sweep.RemoteId.Message.{Drone, empty_drone, location, parse_message, same_text, has_text}
use sky_sweep.RemoteId.Detector.{
  Detector, find_drone_from, place, merge, record_drone, on_service_data, on_result,
  max_detected_drones,
}
use sky_sweep.RemoteId.Table.{parse_message-Returns, location-Returns}

-- The array has its size, and the count is in it.
pub record IsValid (d : Detector) : Type 0 where
  pub size : length d.detected_drones ≡ max_detected_drones
  pub count_in : d.drone_count ≤ max_detected_drones

abbrev pub drone_at : Detector → ℕ → Drone
drone_at d i = get_or d.detected_drones i empty_drone

-- Entry `j`, in a range, has the text that is looked for; or the loop found none.
abbrev pub IsHit : List Drone → Bytes → ℕ → Option ℕ → Type 0
IsHit drones id limit none = Unit
IsHit drones id limit (some j) =
    (j < limit) × (same_text (get_or drones j empty_drone).uas_id id ≡ true)

pub record Finds (drones : List Drone) (id : Bytes) (limit : ℕ) (r : Option (Option ℕ))
    : Type 0 where
  pub hit : Option ℕ
  pub returns : r ≡ some hit
  pub is_hit : IsHit drones id limit hit

find_drone_from-Finds :
    (n i limit : ℕ) (drones : List Drone) (id : Bytes)
    → i + n ≤ limit
    → limit ≤ length drones
    → Finds drones id limit (find_drone_from n i drones id)
unfolding find_drone_from
find_drone_from-Finds zero i limit drones id h k = record {
  hit = none;
  returns = refl;
  is_hit = tt;
}
find_drone_from-Finds (suc n) i limit drones id h k =
    rw (get_elem?-eq-get_or drones i empty_drone (omega arith))
      (elim (Bool-cases (same_text (get_or drones i empty_drone).uas_id id)) [
        | inl same ↦ rw same (record { hit = some i; returns = refl; is_hit = (omega arith, same) })
        | inr other ↦ rw other (find_drone_from-Finds n (suc i) limit drones id (omega arith) k)
      ])

-- What a message may do to the table: it stays valid, no drone is lost, and every entry but one
-- that has the text of the message's drone is as before.
pub record Updates (id : Bytes) (d : Detector) (r : Option Detector) : Type 0 where
  pub next : Detector
  pub returns : r ≡ some next
  pub valid : IsValid next
  pub grows : (next.drone_count ≡ d.drone_count) ⊎ (next.drone_count ≡ d.drone_count + 1)
  pub others :
      (k : ℕ)
      → k < d.drone_count
      → same_text (drone_at d k).uas_id id ≡ false
      → get_elem? next.detected_drones k ≡ get_elem? d.detected_drones k

unchanged : (id : Bytes) (d : Detector) → IsValid d → Updates id d (some d)
unchanged id d v = record {
  next = d;
  returns = refl;
  valid = v;
  grows = inl refl;
  others = λ k h e. refl;
}

place-Updates :
    (d : Detector) (drone : Drone) (hit : Option ℕ)
    → IsValid d
    → IsHit d.detected_drones drone.uas_id d.drone_count hit
    → Updates drone.uas_id d (place d drone hit)
unfolding place
place-Updates d drone (some i) v (inside, same) =
    let old = get_or d.detected_drones i empty_drone in
    rw
      (
        get_elem?-eq-get_or d.detected_drones i empty_drone (omega (arith, v.size, v.count_in)),
        store-some d.detected_drones i (merge drone old) (omega (arith, v.size, v.count_in)),
      )
      (record {
        next = record d { detected_drones = set d.detected_drones i (merge drone old) };
        returns = refl;
        valid = record {
          size = length-set d.detected_drones i (merge drone old) ∙ v.size;
          count_in = v.count_in;
        };
        grows = inl refl;
        others = λ k h e. get_elem?-set_ne d.detected_drones i k (merge drone old) (λ at.
            false≢true
              (sym e ∙ ap (λ n. same_text (drone_at d n).uas_id drone.uas_id) (sym at) ∙ same));
      })
place-Updates d drone none v _ =
    elim (Bool-cases (drone.is_valid && ltb d.drone_count max_detected_drones)) [
      | inl added ↦
          let room : d.drone_count < max_detected_drones = ground (arith, added) in
          let next_count : u8 (d.drone_count + 1) ≡ d.drone_count + 1 = omega arith in
          rw
            (
              added,
              store-some d.detected_drones d.drone_count drone (omega (arith, v.size)),
              next_count,
            )
            (record {
              next = record d {
                detected_drones = set d.detected_drones d.drone_count drone;
                drone_count = d.drone_count + 1;
              };
              returns = refl;
              valid = record {
                size = length-set d.detected_drones d.drone_count drone ∙ v.size;
                count_in = omega arith;
              };
              grows = inr refl;
              others =
                  λ k h e. get_elem?-set_ne d.detected_drones d.drone_count k drone (omega arith);
            })
      | inr kept ↦ rw kept (unchanged drone.uas_id d v)
    ]

pub record_drone-Updates :
    (d : Detector) (drone : Drone)
    → IsValid d
    → Updates drone.uas_id d (record_drone d (some drone))
unfolding record_drone
record_drone-Updates d drone v =
    let f =
      find_drone_from-Finds d.drone_count 0 d.drone_count d.detected_drones drone.uas_id
        (omega arith) (omega (arith, v.size, v.count_in)) in
    rw f.returns (place-Updates d drone f.hit v f.is_hit)

-- The result of any advertisement: no fault, and a valid table.
pub record Handles (d : Detector) (r : Option Detector) : Type 0 where
  pub next : Detector
  pub returns : r ≡ some next
  pub valid : IsValid next
  pub grows : (next.drone_count ≡ d.drone_count) ⊎ (next.drone_count ≡ d.drone_count + 1)

ignored : (d : Detector) → IsValid d → Handles d (some d)
ignored d v = record { next = d; returns = refl; valid = v; grows = inl refl }

parsed-Handles :
    (d : Detector) (message : Option Drone) → IsValid d → Handles d (record_drone d message)
unfolding record_drone
parsed-Handles d none v = ignored d v
parsed-Handles d (some drone) v =
    let u = record_drone-Updates d drone v in
    record { next = u.next; returns = u.returns; valid = u.valid; grows = u.grows }

-- onResult, on a valid table, returns for every advertisement whatever its service data: it reads
-- no byte outside them and writes no entry outside the table, which stays valid (at most 20 drones)
-- and gains at most one drone.
pub on_result-Handles :
    (now : ℕ) (rssi : ℤ) (remote_id : Bool) (data' : Option Bytes) (d : Detector)
    → IsValid d
    → Handles d (on_result now rssi remote_id data' d)
unfolding on_result on_service_data
on_result-Handles now rssi remote_id none d v = ignored d v
on_result-Handles now rssi false (some payload) d v = ignored d v
on_result-Handles now rssi true (some payload) d v =
    elim (Bool-cases (ltb (u8 (length payload)) 2)) [
      | inl short ↦ rw short (ignored d v)
      | inr long ↦
          let p =
            parse_message-Returns payload (u8 (length payload))
              (record empty_drone { rssi = rssi; last_seen = now }) (omega arith)
              (ground (arith, long)) in
          rw (long, p.returns) (parsed-Handles d p.value v)
    ]

text-same_text : (text zeros : Bytes) → has_text text ≡ true → same_text text (0 ∷ zeros) ≡ false
text-same_text [] zeros h = absurd (false≢true h)
text-same_text (b ∷ text) zeros h = ground (arith, h)

-- A location message of less than 256 bytes, on a valid table, is handled without a fault and
-- changes no drone that has a text identifier.
pub location_misses :
    (now : ℕ) (rssi : ℤ) (payload : Bytes) (d : Detector)
    → IsValid d
    → get_elem? payload 0 ≡ some location
    → length payload < 256
    → (next : Detector) × (on_result now rssi true (some payload) d ≡ some next)
      × ((k : ℕ)
          → k < d.drone_count
          → has_text (drone_at d k).uas_id ≡ true
          → get_elem? next.detected_drones k ≡ get_elem? d.detected_drones k)
unfolding on_result on_service_data parse_message record_drone
location_misses now rssi payload d v kind small =
    let size : u8 (length payload) ≡ length payload = omega arith in
    rw size (elim (Bool-cases (ltb (length payload) 2)) [
      | inl short ↦ rw short (d, refl, λ k h e. refl)
      | inr two ↦
          rw (two, kind)
            (elim (Bool-cases (ltb (length payload) 17)) [
              | inl cut ↦ rw cut (d, refl, λ k h e. refl)
              | inr whole ↦
                  let drone = record empty_drone { rssi = rssi; last_seen = now } in
                  let l = location-Returns payload drone (ground (arith, whole)) in
                  let u = record_drone-Updates d l.value v in
                  rw (whole, l.returns)
                    (
                      u.next,
                      u.returns,
                      λ k h e. u.others k h (
                          ap (same_text (drone_at d k).uas_id) l.same_id
                          ∙ text-same_text (drone_at d k).uas_id (replicate 20 0) e),
                    )
            ])
    ])
