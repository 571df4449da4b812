-- ===== src/Crsf/Complete.antt =====
-- The branch of `parseByte` that copies a whole frame out of the buffer and checks its CRC.
use sky_sweep.Prelude.{
  ℕ, zero, suc, ◌+◌, ◌-◌, ◌≤◌, ◌≡◌, refl, sym, inl, some, [], ◌∷◌, ◌++◌, arith, ◌==◌, u8, Bytes,
  length, get_or, take, drop, length-take, length-append, length-drop, drop-cons, take_front,
  take-drop-take, get_or-take, get_elem?-eq-get_or, ◌>>=◌, copy-some,
}
use sky_sweep.Crsf.Crc.{crc_over}
use sky_sweep.Crsf.Parser.{
  Packet, Parser, crc_loop, validate_crc, complete_frame, payload_size_max, max_packet_size,
}
use sky_sweep.Crsf.Frame.{is_intact}
use sky_sweep.Crsf.Relation.{collected, Holds, Refines}

-- The loop runs over `n` payload bytes from index `i` without a fault.
crc_loop-crc_over :
    (n i crc : ℕ) (payload : Bytes)
    → i + n ≤ length payload
    → crc_loop n i crc payload ≡ some (crc_over crc (take n (drop i payload)))
unfolding crc_loop
crc_loop-crc_over zero i crc payload h = refl
crc_loop-crc_over (suc n) i crc payload h =
    rw (get_elem?-eq-get_or payload i 0 (omega arith), drop-cons payload i 0 (omega arith))
      (crc_loop-crc_over n (suc i) _ payload (omega arith))

validate_crc-crc_over :
    (packet : Packet)
    → 2 ≤ packet.length
    → packet.length ≤ payload_size_max + 2
    → length packet.payload ≡ payload_size_max
    → validate_crc packet
      ≡ some (crc_over 0 (packet.type ∷ take (packet.length - 2) packet.payload) == packet.crc)
unfolding validate_crc
validate_crc-crc_over packet h k e =
    let n : u8 (packet.length + 256 - 2) ≡ packet.length - 2 = omega arith in
    rw (n, crc_loop-crc_over (packet.length - 2) 0 _ packet.payload (omega arith))

module _ (p : Parser) (buffer_size : length p.rx_buffer ≡ max_packet_size)
    (payload_size : length p.current_packet.payload ≡ payload_size_max) where
  abbrev pub len : ℕ
  len = get_or p.rx_buffer 1 0

  abbrev filled : Packet
  filled = record {
    address = get_or p.rx_buffer 0 0;
    length = len;
    type = get_or p.rx_buffer 2 0;
    payload = take (len - 2) (drop 3 p.rx_buffer) ++ drop (len - 2) p.current_packet.payload;
    crc = get_or p.rx_buffer (1 + len) 0;
    valid = p.current_packet.valid;
  }

  complete_frame-filled :
      2 ≤ len
      → len ≤ payload_size_max + 2
      → complete_frame p ≡ (
          validate_crc filled >>= λ valid.
          some (valid, record p { rx_index = 0; current_packet = record filled { valid = valid } }))
  unfolding complete_frame
  complete_frame-filled h k =
      let n : u8 (len + 256 - 2) ≡ len - 2 = omega arith in
      rw
        (
          get_elem?-eq-get_or p.rx_buffer 0 0 (omega arith),
          get_elem?-eq-get_or p.rx_buffer 1 0 (omega arith),
          get_elem?-eq-get_or p.rx_buffer 2 0 (omega arith),
          n,
          copy-some p.current_packet.payload p.rx_buffer 3 (len - 2) (omega arith) (omega arith),
          get_elem?-eq-get_or p.rx_buffer (1 + len) 0 (omega arith),
        )
        refl

  -- At the end of a frame the check sees the bytes that were received, and no others.
  is_intact-collected :
      2 ≤ len
      → p.rx_index ≡ len + 2
      → is_intact (collected p) ≡ (
          crc_over 0 (get_or p.rx_buffer 2 0 ∷ take (len - 2) (drop 3 p.rx_buffer))
          == get_or p.rx_buffer (1 + len) 0)
  is_intact-collected h e = rw (
    get_or-take p.rx_index p.rx_buffer 1 0 (omega arith),
    get_or-take p.rx_index p.rx_buffer 2 0 (omega arith),
    get_or-take p.rx_index p.rx_buffer (1 + len) 0 (omega arith),
    take-drop-take (len - 2) 3 p.rx_index p.rx_buffer (omega arith),
  )

  length-filled : len ≤ payload_size_max + 2 → length filled.payload ≡ payload_size_max
  length-filled k = omega (
    arith,
    length-append (take (len - 2) (drop 3 p.rx_buffer)) (drop (len - 2) p.current_packet.payload),
    length-take (len - 2) (drop 3 p.rx_buffer),
    length-drop 3 p.rx_buffer,
    length-drop (len - 2) p.current_packet.payload,
  )

  take-filled :
      len ≤ payload_size_max + 2
      → take (len - 2) filled.payload ≡ take (len - 2) (drop 3 p.rx_buffer)
  take-filled k =
      take_front (len - 2) (drop 3 p.rx_buffer) (drop (len - 2) p.current_packet.payload)
        (omega (arith, length-drop 3 p.rx_buffer))

  filled-Holds :
      2 ≤ len
      → len ≤ payload_size_max + 2
      → p.rx_index ≡ len + 2
      → Holds (collected p) (record filled { valid = is_intact (collected p) })
  filled-Holds h k e =
      let at_1 = get_or-take p.rx_index p.rx_buffer 1 0 (omega arith) in
      record {
        address = sym (get_or-take p.rx_index p.rx_buffer 0 0 (omega arith));
        length = sym at_1;
        type = sym (get_or-take p.rx_index p.rx_buffer 2 0 (omega arith));
        payload =
            rw (at_1, take-drop-take (len - 2) 3 p.rx_index p.rx_buffer (omega arith))
              (take-filled k);
        crc = rw (at_1, get_or-take p.rx_index p.rx_buffer (1 + len) 0 (omega arith));
        valid = refl;
      }

  pub complete_frame-Refines :
      2 ≤ len
      → len ≤ payload_size_max + 2
      → p.rx_index ≡ len + 2
      → Refines p.current_packet ([], some (collected p)) (complete_frame p)
  complete_frame-Refines h k e = record {
    next = record p {
      rx_index = 0;
      current_packet = record filled { valid = is_intact (collected p) };
    };
    returns = rw (
      complete_frame-filled h k,
      validate_crc-crc_over filled h k (length-filled k),
      take-filled k,
      is_intact-collected h e,
    );
    valid = record {
      buffer_size = buffer_size;
      payload_size = length-filled k;
      index_in = omega arith;
      partial = record { synced = inl refl; bounded = inl (omega arith) };
    };
    keeps = refl;
    packet = filled-Holds h k e;
  }
