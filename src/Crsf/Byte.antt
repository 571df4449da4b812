-- ===== src/Crsf/Byte.antt =====
-- Every byte: `parseByte` implements the receiver of Crsf/Frame and keeps the parser valid.
use sky_sweep.Prelude.{
  ℕ, suc, ◌+◌, ◌-◌, ◌≤◌, ◌<◌, ◌≡◌, refl, ap, ◌∙◌, ◌⊎◌, inl, inr, false, ◌||◌, none, some, [], ◌∷◌,
  ◌++◌, arith, if◌then◌else◌, ◌==◌, ltb, leb, u8, Bytes, Bool-cases, ltb-true, ltb-false, leb-false,
  leb→le, leb→lt, ==_iff, length, get_or, take, set, length-set, length-take, take-set, get_or-take,
  get_or-append, get_elem?-eq-get_or, ◌>>=◌, store-some,
}
use sky_sweep.Crsf.Parser.{
  Parser, wrap_index, complete_frame, check_length, append_byte, parse_byte, sync_byte,
  payload_size_max, max_packet_size,
}
use sky_sweep.Crsf.Frame.{IsPartial, receive, receive_more}
use sky_sweep.Crsf.Relation.{collected, Refines, IsValid}
use sky_sweep.Crsf.Complete.{complete_frame-Refines}

module _ (p : Parser) (buffer_size : length p.rx_buffer ≡ max_packet_size)
    (payload_size : length p.current_packet.payload ≡ payload_size_max) where
  abbrev len : ℕ
  len = get_or p.rx_buffer 1 0

  length-collected : p.rx_index ≤ max_packet_size → length (collected p) ≡ p.rx_index
  length-collected h = omega (arith, length-take p.rx_index p.rx_buffer)

  -- The state after a byte that neither ends the frame nor rules it out.
  waiting-Refines :
      p.rx_index < max_packet_size
      → IsPartial (collected p)
      → Refines p.current_packet (collected p, none) (some (false, p))
  waiting-Refines h c = record {
    next = p;
    returns = refl;
    valid = record {
      buffer_size = buffer_size;
      payload_size = payload_size;
      index_in = h;
      partial = c;
    };
    keeps = refl;
    packet = refl;
  }

  reset-Refines : Refines p.current_packet ([], none) (some (false, record p { rx_index = 0 }))
  reset-Refines = record {
    next = record p { rx_index = 0 };
    returns = refl;
    valid = record {
      buffer_size = buffer_size;
      payload_size = payload_size;
      index_in = omega arith;
      partial = record { synced = inl refl; bounded = inl (omega arith) };
    };
    keeps = refl;
    packet = refl;
  }

  check_length-Refines :
      3 ≤ p.rx_index
      → p.rx_index ≤ max_packet_size
      → (p.rx_index ≡ 3) ⊎ ((2 ≤ len) × (len ≤ payload_size_max + 2) × (p.rx_index ≤ len + 2))
      → get_or (collected p) 0 0 ≡ sync_byte
      → Refines p.current_packet (receive_more (collected p)) (check_length p)
  unfolding check_length wrap_index
  check_length-Refines three small bounded synced =
      rw
        (
          get_elem?-eq-get_or p.rx_buffer 1 0 (omega arith),
          length-collected small,
          get_or-take p.rx_index p.rx_buffer 1 0 (omega arith),
          ltb-false p.rx_index 3 three,
        )
        (elim (Bool-cases (ltb len 2 || ltb payload_size_max (len - 2))) [
          | inl bad ↦ rw bad reset-Refines
          | inr fine ↦ rw fine (length_fits (ground arith) (ground arith) bounded)
        ])
    where
      length_fits :
          2 ≤ len
          → len ≤ payload_size_max + 2
          → (p.rx_index ≡ 3) ⊎ ((2 ≤ len) × (len ≤ payload_size_max + 2) × (p.rx_index ≤ len + 2))
          → Refines p.current_packet
              (if leb (len + 2) p.rx_index then ([], some (collected p)) else (collected p, none))
              (if leb (len + 2) p.rx_index then complete_frame p else some (false, wrap_index p))
      length_fits low high b = elim (Bool-cases (leb (len + 2) p.rx_index)) [
        | inl full ↦
            rw full (complete_frame-Refines p buffer_size payload_size low high (ground arith))
        | inr short ↦
            rw (short, leb-false max_packet_size p.rx_index (ground arith))
              (waiting-Refines (ground arith) (record {
                synced = inr synced;
                bounded = inr (
                  rw (get_or-take p.rx_index p.rx_buffer 1 0 (omega arith)) low,
                  rw (get_or-take p.rx_index p.rx_buffer 1 0 (omega arith)) high,
                  rw (length-collected small, get_or-take p.rx_index p.rx_buffer 1 0 (omega arith))
                      (ground arith),
                );
              }))
      ]

receive-cons : (c : Bytes) (b : ℕ) → 0 < length c → receive c b ≡ receive_more (c ++ b ∷ [])
unfolding receive
receive-cons [] b h = absurd (omega arith)
receive-cons (x ∷ c) b h = refl

module _ (p : Parser) (v : IsValid p) (byte : ℕ) where
  abbrev appended : Parser
  appended = record p { rx_buffer = set p.rx_buffer p.rx_index byte; rx_index = suc p.rx_index }

  append_byte-appended : append_byte p byte ≡ some appended
  unfolding append_byte
  append_byte-appended =
      let n : u8 (p.rx_index + 1) ≡ suc p.rx_index = omega (arith, v.index_in) in
      rw (store-some p.rx_buffer p.rx_index byte (omega (arith, v.buffer_size, v.index_in)), n)

  collected-appended : collected appended ≡ collected p ++ byte ∷ []
  collected-appended =
      take-set p.rx_buffer p.rx_index byte (omega (arith, v.buffer_size, v.index_in))

  appended_size : length appended.rx_buffer ≡ max_packet_size
  appended_size = length-set p.rx_buffer p.rx_index byte ∙ v.buffer_size

  -- Index 0: only the sync byte is kept.
  idle-Refines :
      p.rx_index ≡ 0
      → Refines p.current_packet (receive [] byte) (
          if byte == sync_byte
          then (append_byte p byte >>= λ q. some (false, q))
          else some (false, wrap_index p))
  unfolding receive wrap_index
  idle-Refines e = elim (Bool-cases (byte == sync_byte)) [
    | inl sync ↦
        rw (sync, append_byte-appended, ← one)
          (waiting-Refines appended appended_size v.payload_size (omega arith)
            (rw one (record { synced = inr (ground arith); bounded = inl (omega arith) })))
    | inr other ↦
        rw (other, leb-false max_packet_size p.rx_index v.index_in)
          (record { next = p; returns = refl; valid = v; keeps = rw e; packet = refl })
  ]
    where
      one : collected appended ≡ byte ∷ []
      one = collected-appended ∙ rw e

  -- What held of the bytes before holds of them with one more behind.
  still_synced : 0 < p.rx_index → get_or (collected p ++ byte ∷ []) 0 0 ≡ sync_byte
  still_synced h = ground (
    arith,
    v.partial.synced,
    get_or-append (collected p) (byte ∷ []) 0 0,
    length-collected p v.buffer_size v.payload_size,
  )

  busy_bounded :
      3 ≤ suc p.rx_index
      → (suc p.rx_index ≡ 3)
        ⊎ ((2 ≤ get_or appended.rx_buffer 1 0)
            × (get_or appended.rx_buffer 1 0 ≤ payload_size_max + 2)
            × (suc p.rx_index ≤ get_or appended.rx_buffer 1 0 + 2))
  busy_bounded h = ground (
    arith,
    v.partial.bounded,
    length-collected p v.buffer_size v.payload_size,
    ap (λ xs. get_or xs 1 0) collected-appended,
    get_or-append (collected p) (byte ∷ []) 1 0,
    get_or-take (suc p.rx_index) appended.rx_buffer 1 0,
  )

  -- A frame has begun: the byte is appended, and decides once the length byte is there.
  busy-Refines :
      0 < p.rx_index
      → Refines p.current_packet (receive (collected p) byte) (
          append_byte p byte >>= λ q.
          (if leb 3 q.rx_index then check_length q else some (false, wrap_index q)))
  unfolding wrap_index
  busy-Refines h =
      rw (append_byte-appended, receive-cons (collected p) byte begun, ← collected-appended)
        (elim (Bool-cases (leb 3 (suc p.rx_index))) [
          | inl three ↦ rw three (
              check_length-Refines appended appended_size v.payload_size (leb→le 3 _ three)
                (omega (arith, v.index_in)) (busy_bounded (leb→le 3 _ three))
                (rw collected-appended (still_synced h)))
          | inr two ↦
              rw
                (
                  two,
                  small,
                  ltb-true _ 3 (leb→lt 3 _ two),
                  leb-false 64 (suc p.rx_index) (omega (arith, leb→lt 3 _ two)),
                )
                (waiting-Refines appended appended_size v.payload_size
                  (omega (arith, leb→lt 3 _ two))
                  (record {
                    synced = inr (rw collected-appended (still_synced h));
                    bounded = inl (rw small (leb→lt 3 _ two));
                  }))
        ])
    where
      begun : 0 < length (collected p)
      begun = omega (arith, length-collected p v.buffer_size v.payload_size, v.index_in)

      small : length (collected appended) ≡ suc p.rx_index
      small = length-collected appended appended_size v.payload_size (omega (arith, v.index_in))

  pub parse_byte-Refines : Refines p.current_packet (receive (collected p) byte) (parse_byte p byte)
  unfolding parse_byte
  parse_byte-Refines = elim (Bool-cases (p.rx_index == 0)) [
    | inl idle ↦
        let e : p.rx_index ≡ 0 = (==_iff _ _).0 idle in
        let nothing : collected p ≡ [] = ap (λ n. take n p.rx_buffer) e in
        rw (idle, ltb-false 0 p.rx_index (omega arith), nothing) (idle-Refines e)
    | inr busy ↦
        rw (busy, ltb-true 0 p.rx_index (ground arith), ltb-true p.rx_index 64 v.index_in)
          (busy-Refines (ground arith))
  ]
