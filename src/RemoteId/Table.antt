-- ===== src/RemoteId/Table.antt =====
-- Reading a message stays within its bytes, and handling it keeps the table in order.
use sky_sweep.Prelude.{
  ℕ, ◌+◌, ◌*◌, ◌≤◌, ◌<◌, ◌≡◌, refl, inl, inr, Option, none, some, arith, if◌then◌else◌, ◌==◌, ltb,
  Bytes, Bool-cases, length, get_or, get_elem?, get_elem?-eq-get_or, set, store-some, copy-some,
  take, drop, replicate, length-append, length-take, length-drop, ◌++◌, ◌>>=◌,
}
use sky_sweep.RemoteId.Message.{
  Drone, basic_id, location, system, operator_id, be16, be32, copy_text, parse_basic_id_message,
  parse_location_message, parse_system_message, parse_operator_id_message, parse_message,
}

-- A run without a fault.
pub record Returns {ℓ} {A : Type ℓ} (r : Option A) : Type ℓ where
  pub value : A
  pub returns : r ≡ some value

some-Returns {ℓ} : {A : Type ℓ} (a : A) → Returns (some a)
some-Returns a = record { value = a; returns = refl }

-- A run without a fault whose result has this text identifier.
pub record KeepsId (id : Bytes) (r : Option Drone) : Type 0 where
  pub value : Drone
  pub returns : r ≡ some value
  pub same_id : value.uas_id ≡ id

some-KeepsId : {id : Bytes} (d : Drone) → d.uas_id ≡ id → KeepsId id (some d)
some-KeepsId d h = record { value = d; returns = refl; same_id = h }

module _ (payload : Bytes) where
  at_byte : (i : ℕ) → i < length payload → get_elem? payload i ≡ some (get_or payload i 0)
  at_byte i h = get_elem?-eq-get_or payload i 0 h

  be16-Returns : (i : ℕ) → i + 1 < length payload → Returns (be16 payload i)
  unfolding be16
  be16-Returns i h = record {
    value = get_or payload i 0 * 256 + get_or payload (i + 1) 0;
    returns = rw (at_byte i (omega arith), at_byte (i + 1) h);
  }

  be32-Returns : (i : ℕ) → i + 3 < length payload → Returns (be32 payload i)
  unfolding be32
  be32-Returns i h =
      let high = be16-Returns i (omega arith) in
      let low = be16-Returns (i + 2) (omega arith) in
      record { value = high.value * 65536 + low.value; returns = rw (high.returns, low.returns) }

  copy_text-Returns : (i : ℕ) → i + 20 ≤ length payload → Returns (copy_text payload i)
  unfolding copy_text
  copy_text-Returns i h =
      let text = take 20 (drop i payload) ++ drop 20 (replicate 21 0) in
      let size : length text ≡ 21 = omega (
        arith,
        length-append (take 20 (drop i payload)) (drop 20 (replicate 21 0)),
        length-take 20 (drop i payload),
        length-drop i payload,
      ) in
      record {
        value = set text 20 0;
        returns = rw (
          copy-some (replicate 21 0) payload i 20 (omega arith) (omega arith),
          store-some text 20 0 (omega arith),
        );
      }

  basic_id-Returns :
      (drone : Drone) → 23 ≤ length payload → Returns (parse_basic_id_message payload drone)
  unfolding parse_basic_id_message
  basic_id-Returns drone h =
      let text = copy_text-Returns 3 (omega arith) in
      rw (at_byte 0 (omega arith)) (elim (Bool-cases (get_or payload 0 0 == basic_id)) [
        | inl same ↦
            rw (same, at_byte 1 (omega arith), at_byte 2 (omega arith), text.returns)
              (some-Returns _)
        | inr other ↦ rw other (some-Returns drone)
      ])

  -- A location message leaves the text identifier as it was.
  pub location-Returns :
      (drone : Drone)
      → 17 ≤ length payload
      → KeepsId drone.uas_id (parse_location_message payload drone)
  unfolding parse_location_message
  location-Returns drone h =
      let lat = be32-Returns 2 (omega arith) in
      let lon = be32-Returns 6 (omega arith) in
      let alt = be16-Returns 10 (omega arith) in
      let height = be16-Returns 12 (omega arith) in
      let direction = be16-Returns 15 (omega arith) in
      rw (at_byte 0 (omega arith)) (elim (Bool-cases (get_or payload 0 0 == location)) [
        | inl same ↦
            rw
              (
                same,
                lat.returns,
                lon.returns,
                alt.returns,
                height.returns,
                at_byte 14 (omega arith),
                direction.returns,
              )
              (some-KeepsId _ refl)
        | inr other ↦ rw other (some-KeepsId drone refl)
      ])

  system-Returns :
      (drone : Drone) → 13 ≤ length payload → Returns (parse_system_message payload drone)
  unfolding parse_system_message
  system-Returns drone h =
      let lat = be32-Returns 2 (omega arith) in
      let lon = be32-Returns 6 (omega arith) in
      let radius = be16-Returns 10 (omega arith) in
      rw (at_byte 0 (omega arith)) (elim (Bool-cases (get_or payload 0 0 == system)) [
        | inl same ↦
            rw (same, lat.returns, lon.returns, radius.returns, at_byte 12 (omega arith))
              (some-Returns _)
        | inr other ↦ rw other (some-Returns drone)
      ])

  operator_id-Returns :
      (drone : Drone) → 22 ≤ length payload → Returns (parse_operator_id_message payload drone)
  unfolding parse_operator_id_message
  operator_id-Returns drone h =
      let text = copy_text-Returns 2 (omega arith) in
      rw (at_byte 0 (omega arith)) (elim (Bool-cases (get_or payload 0 0 == operator_id)) [
        | inl same ↦ rw (same, text.returns) (some-Returns _)
        | inr other ↦ rw other (some-Returns drone)
      ])

  parsed : {r : Option Drone} → Returns r → Returns (r >>= λ d. some (some d))
  parsed r = rw r.returns (some-Returns (some r.value))

  -- Whatever the message type and the length, the switch reads nothing outside the payload.
  pub parse_message-Returns :
      (n : ℕ) (drone : Drone)
      → n ≤ length payload
      → 0 < length payload
      → Returns (parse_message n payload drone)
  unfolding parse_message
  parse_message-Returns n drone h some_bytes =
      rw (at_byte 0 some_bytes) (elim (Bool-cases (get_or payload 0 0 == basic_id)) [
        | inl basic ↦
            rw basic (guarded 23 (λ k. parsed (basic_id-Returns drone (omega (arith, k)))))
        | inr other ↦ rw other (elim (Bool-cases (get_or payload 0 0 == location)) [
          | inl placed ↦ rw placed (
              guarded 17 (λ k.
                let l = location-Returns drone (omega (arith, k)) in
                parsed (record { value = l.value; returns = l.returns })))
          | inr unplaced ↦ rw unplaced (elim (Bool-cases (get_or payload 0 0 == system)) [
            | inl of_system ↦
                rw of_system (guarded 13 (λ k. parsed (system-Returns drone (omega (arith, k)))))
            | inr elsewhere ↦ rw elsewhere (elim (Bool-cases (get_or payload 0 0 == operator_id)) [
              | inl of_operator ↦
                  rw of_operator
                    (guarded 22 (λ k. parsed (operator_id-Returns drone (omega (arith, k)))))
              | inr unknown ↦ rw unknown (some-Returns none)
            ])
          ])
        ])
      ])
    where
      guarded :
          {r : Option (Option Drone)} (needed : ℕ)
          → (needed ≤ length payload → Returns r)
          → Returns (if ltb n needed then some none else r)
      guarded needed rest = elim (Bool-cases (ltb n needed)) [
        | inl short ↦ rw short (some-Returns none)
        | inr long ↦ rw long (rest (ground (arith, long)))
      ]
