-- ===== src/Mavlink/Complete.antt =====
-- The branch of `parseByte` that copies a whole frame out of the buffer and checks its checksum.
use sky_sweep.Prelude.{
  ℕ, zero, suc, ◌+◌, ◌*◌, ◌≤◌, ◌<◌, ◌≡◌, refl, sym, ap, ◌∙◌, inl, some, Bool, false, [], ◌∷◌, ◌++◌,
  arith, ◌==◌, u8, u16, bit_or, Bytes, IsByte, length, get_or, take, drop, length-take,
  length-append, length-drop, drop-cons, take_front, take-drop-take, get_or-take, get_elem?,
  get_elem?-eq-get_or, ◌>>=◌, copy-some,
}
use sky_sweep.Prelude.Int.{ℤ, pos, negsuc}
use sky_sweep.Mavlink.Crc.{crc_over, crc_accumulate, crc_extra}
use sky_sweep.Mavlink.Parser.{
  Packet, Parser, checksum_loop, checksum_with, header_crc, validate_checksum, complete_frame,
  rx_buffer_size, max_payload_len,
}
use sky_sweep.Mavlink.Frame.{is_intact, matches, collected, Refines, payload_of, checksum_in}

pub crc_over-append :
    (xs ys : Bytes) (crc : ℕ) → crc_over crc (xs ++ ys) ≡ crc_over (crc_over crc xs) ys
crc_over-append [] ys crc = refl
crc_over-append (x ∷ xs) ys crc = crc_over-append xs ys (crc_accumulate crc x)

-- The loop runs over `n` payload bytes from index `i` without a fault.
checksum_loop-crc_over :
    (n i crc : ℕ) (payload : Bytes)
    → i + n ≤ length payload
    → checksum_loop n i crc payload ≡ some (crc_over crc (take n (drop i payload)))
unfolding checksum_loop
checksum_loop-crc_over zero i crc payload h = refl
checksum_loop-crc_over (suc n) i crc payload h =
    rw (get_elem?-eq-get_or payload i 0 (omega arith), drop-cons payload i 0 (omega arith))
      (checksum_loop-crc_over n (suc i) _ payload (omega arith))

-- The outcome of `validateChecksum` for a packet with these payload bytes.
abbrev pub verdict : ℤ → Packet → Bytes → Bool
verdict (negsuc _) packet payload = false
verdict (pos extra) packet payload =
    crc_over 0xFFFF (
      packet.len
      ∷ packet.seq
      ∷ packet.sysid
      ∷ packet.compid
      ∷ packet.msgid
      ∷ (payload ++ extra ∷ []))
    == packet.checksum

crc_extra_byte : (m : ℕ) (extra : ℕ) → crc_extra m ≡ pos extra → extra < 256
unfolding crc_extra
crc_extra_byte m extra h = ground arith

checksum_with-verdict :
    (extra : ℤ) (packet : Packet)
    → ((e : ℕ) → extra ≡ pos e → e < 256)
    → packet.len ≤ length packet.payload
    → checksum_with extra packet ≡ some (verdict extra packet (take packet.len packet.payload))
unfolding checksum_with header_crc
checksum_with-verdict (negsuc n) packet small h = refl
checksum_with-verdict (pos extra) packet small h =
    let byte : u8 extra ≡ extra = omega (arith, small extra refl) in
    rw (
      checksum_loop-crc_over packet.len 0 _ packet.payload (omega arith),
      byte,
      crc_over-append (take packet.len packet.payload) (extra ∷ []) _,
    )

module _ (p : Parser) (buffer_size : length p.rx_buffer ≡ rx_buffer_size)
    (payload_size : length p.current_packet.payload ≡ max_payload_len)
    (byte : IsByte (get_or p.rx_buffer 1 0)) where
  abbrev len : ℕ
  len = get_or p.rx_buffer 1 0

  abbrev filled : Packet
  filled = record {
    magic = get_or p.rx_buffer 0 0;
    len = len;
    seq = get_or p.rx_buffer 2 0;
    sysid = get_or p.rx_buffer 3 0;
    compid = get_or p.rx_buffer 4 0;
    msgid = get_or p.rx_buffer 5 0;
    payload = take len (drop 6 p.rx_buffer) ++ drop len p.current_packet.payload;
    checksum = u16 (bit_or (get_or p.rx_buffer (6 + len) 0) (get_or p.rx_buffer (7 + len) 0 * 256));
    valid = p.current_packet.valid;
  }

  complete_frame-filled : complete_frame p ≡ (
      validate_checksum filled >>= λ valid.
      some (valid, record p { rx_index = 0; current_packet = record filled { valid = valid } }))
  unfolding complete_frame
  complete_frame-filled =
      rw
        (
          at 0 (omega arith),
          at 1 (omega arith),
          at 2 (omega arith),
          at 3 (omega arith),
          at 4 (omega arith),
          at 5 (omega arith),
          copy-some p.current_packet.payload p.rx_buffer 6 len (omega arith) (omega arith),
          at (6 + len) (omega arith),
          at (7 + len) (omega arith),
        )
        refl
    where
      at : (i : ℕ) → i < rx_buffer_size → get_elem? p.rx_buffer i ≡ some (get_or p.rx_buffer i 0)
      at i h = get_elem?-eq-get_or p.rx_buffer i 0 (omega arith)

  length-filled : length filled.payload ≡ max_payload_len
  length-filled = omega (
    arith,
    length-append (take len (drop 6 p.rx_buffer)) (drop len p.current_packet.payload),
    length-take len (drop 6 p.rx_buffer),
    length-drop 6 p.rx_buffer,
    length-drop len p.current_packet.payload,
  )

  take-filled : take len filled.payload ≡ take len (drop 6 p.rx_buffer)
  take-filled =
      take_front len (drop 6 p.rx_buffer) (drop len p.current_packet.payload)
        (omega (arith, length-drop 6 p.rx_buffer))

  abbrev judged : Bool
  judged = verdict (crc_extra filled.msgid) filled (take len (drop 6 p.rx_buffer))

  validate_checksum-judged : validate_checksum filled ≡ some judged
  unfolding validate_checksum
  validate_checksum-judged =
      checksum_with-verdict (crc_extra filled.msgid) filled (λ e q. crc_extra_byte filled.msgid e q)
        (omega (arith, length-filled))
      ∙ ap (λ bs. some (verdict (crc_extra filled.msgid) filled bs)) take-filled

  module _ (e : p.rx_index ≡ 8 + len) where
    seen : (i : ℕ) → i < 8 + len → get_or (collected p) i 0 ≡ get_or p.rx_buffer i 0
    seen i h = get_or-take p.rx_index p.rx_buffer i 0 (omega arith)

    payload_of-collected : payload_of (collected p) ≡ take len (drop 6 p.rx_buffer)
    payload_of-collected =
        rw (seen 1 (omega arith)) (take-drop-take len 6 p.rx_index p.rx_buffer (omega arith))

    checksum_in-collected : filled.checksum ≡ checksum_in (collected p)
    checksum_in-collected =
        rw (seen 1 (omega arith), seen (6 + len) (omega arith), seen (7 + len) (omega arith))

    matches-verdict :
        (extra : ℤ)
        → verdict extra filled (take len (drop 6 p.rx_buffer)) ≡ matches extra (collected p)
    matches-verdict (negsuc n) = refl
    matches-verdict (pos extra) = rw (
      seen 1 (omega arith),
      seen 2 (omega arith),
      seen 3 (omega arith),
      seen 4 (omega arith),
      seen 5 (omega arith),
      seen (6 + len) (omega arith),
      seen (7 + len) (omega arith),
      take-drop-take len 6 p.rx_index p.rx_buffer (omega arith),
    )

    judged-is_intact : judged ≡ is_intact (collected p)
    judged-is_intact =
        matches-verdict (crc_extra filled.msgid)
        ∙ ap (λ m. matches (crc_extra m) (collected p)) (sym (seen 5 (omega arith)))

    pub complete_frame-Refines :
        Refines p.current_packet ([], some (collected p)) (complete_frame p)
    complete_frame-Refines = record {
      next = record p { rx_index = 0; current_packet = record filled { valid = judged } };
      returns = rw (complete_frame-filled, validate_checksum-judged, judged-is_intact);
      valid = record {
        buffer_size = buffer_size;
        payload_size = length-filled;
        packet_len = byte;
        index_in = omega arith;
        len_byte = inl (omega arith);
        incomplete = inl (omega arith);
      };
      keeps = refl;
      packet = record {
        len = sym (seen 1 (omega arith));
        seq = sym (seen 2 (omega arith));
        sysid = sym (seen 3 (omega arith));
        compid = sym (seen 4 (omega arith));
        msgid = sym (seen 5 (omega arith));
        payload =
            ap (λ n. take n filled.payload) (seen 1 (omega arith))
            ∙ take-filled
            ∙ sym payload_of-collected;
        checksum = checksum_in-collected;
        valid = judged-is_intact;
      };
    }
