-- ===== src/Mavlink/Received.antt =====
-- The decoders of `MAVLinkParser` read nothing but what came with the frame.
use sky_sweep.Prelude.{
  ℕ, ◌+◌, ◌≤◌, ◌<◌, ◌≡◌, sym, ap, ◌∙◌, inl, inr, arith, Bytes, Bool-cases, leb, leb→le, length,
  take, drop, load, get_elem?-take, take-drop-take, copy-some, replicate, length-replicate,
}
use sky_sweep.Mavlink.Parser.{Packet, max_payload_len}
use sky_sweep.Mavlink.Decode.{read_number, read_heartbeat, parse_heartbeat, read_gps, parse_gps}

-- Two packets with the same length byte that received the same payload bytes.
pub record SameFrame (p q : Packet) : Type 0 where
  pub same_len : p.len ≡ q.len
  pub same_bytes : take p.len p.payload ≡ take p.len q.payload
  pub left_size : length p.payload ≡ max_payload_len
  pub right_size : length q.payload ≡ max_payload_len

module _ (n : ℕ) (xs ys : Bytes) (same : take n xs ≡ take n ys) (left : n ≤ length xs)
    (right : n ≤ length ys) where
  load_same : (i : ℕ) → i < n → load xs i ≡ load ys i
  load_same i h =
      sym (get_elem?-take n xs i h) ∙ ap (λ bs. load bs i) same ∙ get_elem?-take n ys i h

  read_number_same : (i k : ℕ) → i + k ≤ n → read_number xs i k ≡ read_number ys i k
  unfolding read_number
  read_number_same i k h =
      let e : take k (drop i xs) ≡ take k (drop i ys) =
        sym (take-drop-take k i n xs h)
        ∙ ap (λ bs. take k (drop i bs)) same
        ∙ take-drop-take k i n ys h in
      let size = length-replicate {A = ℕ} k 0 in
      rw (
        copy-some (replicate k 0) xs i k (omega (arith, size)) (omega arith),
        copy-some (replicate k 0) ys i k (omega (arith, size)) (omega arith),
        e,
      )

  read_heartbeat_same : 9 ≤ n → read_heartbeat xs ≡ read_heartbeat ys
  unfolding read_heartbeat
  read_heartbeat_same h = rw (
    load_same 0 (omega arith),
    load_same 1 (omega arith),
    load_same 2 (omega arith),
    read_number_same 3 4 (omega arith),
    load_same 7 (omega arith),
    load_same 8 (omega arith),
  )

  read_gps_same : 30 ≤ n → read_gps xs ≡ read_gps ys
  unfolding read_gps
  read_gps_same h = rw (
    read_number_same 0 8 (omega arith),
    read_number_same 8 4 (omega arith),
    read_number_same 12 4 (omega arith),
    read_number_same 16 4 (omega arith),
    read_number_same 20 2 (omega arith),
    read_number_same 22 2 (omega arith),
    read_number_same 24 2 (omega arith),
    read_number_same 26 2 (omega arith),
    load_same 28 (omega arith),
    load_same 29 (omega arith),
  )

-- Two packets of the same length, at most 255, with the same received payload bytes decode to the
-- same heartbeat and to the same position.
pub parse_received :
    (p q : Packet)
    → p.len ≤ max_payload_len
    → SameFrame p q
    → (parse_heartbeat p ≡ parse_heartbeat q) × (parse_gps p ≡ parse_gps q)
unfolding parse_heartbeat parse_gps
parse_received p q h s =
    let left : p.len ≤ length p.payload = omega (arith, s.left_size) in
    let right : p.len ≤ length q.payload = omega (arith, s.right_size) in
    (
      elim (Bool-cases (leb 9 p.len)) [
        | inl long ↦
            rw (← s.same_len, long)
              (read_heartbeat_same p.len p.payload q.payload s.same_bytes left right
                (leb→le 9 p.len long))
        | inr short ↦ rw (← s.same_len, short)
      ],
      elim (Bool-cases (leb 30 p.len)) [
        | inl long ↦
            rw (← s.same_len, long)
              (read_gps_same p.len p.payload q.payload s.same_bytes left right
                (leb→le 30 p.len long))
        | inr short ↦ rw (← s.same_len, short)
      ],
    )
