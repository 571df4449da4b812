-- ===== src/Mavlink/Byte.antt =====
-- Every byte: `parseByte` implements the receiver of Mavlink/Frame and keeps the parser valid.
use sky_sweep.Prelude.{
  ℕ, suc, ◌+◌, ◌≤◌, ◌<◌, ◌≡◌, refl, ap, ◌∙◌, ◌⊎◌, inl, inr, false, none, some, [], ◌∷◌, ◌++◌, arith,
  if◌then◌else◌, ◌==◌, leb, u16, Bytes, IsByte, Bool-cases, ltb-true, ltb-false, leb→le, leb→lt,
  ==_iff, length, get_or, take, set, length-set, length-take, take-set, get_or-take,
  get_elem?-eq-get_or, get_or-set_self, get_or-set_ne, ◌>>=◌, store-some,
}
use sky_sweep.Mavlink.Parser.{
  Parser, check_length, append_byte, parse_byte, stx_v1, rx_buffer_size, max_payload_len,
}
use sky_sweep.Mavlink.Frame.{receive, receive_more, collected, Refines, IsValid}
use sky_sweep.Mavlink.Complete.{complete_frame-Refines}

module _ (p : Parser) (buffer_size : length p.rx_buffer ≡ rx_buffer_size)
    (payload_size : length p.current_packet.payload ≡ max_payload_len)
    (packet_len : IsByte p.current_packet.len) where
  abbrev len : ℕ
  len = get_or p.rx_buffer 1 0

  length-collected : p.rx_index ≤ rx_buffer_size → length (collected p) ≡ p.rx_index
  length-collected h = omega (arith, length-take p.rx_index p.rx_buffer)

  -- The state after a byte that does not end the frame.
  waiting-Refines :
      p.rx_index < rx_buffer_size
      → (p.rx_index < 2) ⊎ IsByte len
      → (p.rx_index < 6) ⊎ (p.rx_index < 8 + len)
      → Refines p.current_packet (collected p, none) (some (false, p))
  waiting-Refines h byte c = record {
    next = p;
    returns = refl;
    valid = record {
      buffer_size = buffer_size;
      payload_size = payload_size;
      packet_len = packet_len;
      index_in = h;
      len_byte = byte;
      incomplete = c;
    };
    keeps = refl;
    packet = refl;
  }

  check_length-Refines :
      6 ≤ p.rx_index
      → p.rx_index ≤ 8 + len
      → IsByte len
      → Refines p.current_packet (receive_more (collected p)) (check_length p)
  unfolding check_length
  check_length-Refines six bounded byte =
      let size : u16 (8 + len) ≡ 8 + len = omega arith in
      rw
        (
          get_elem?-eq-get_or p.rx_buffer 1 0 (omega arith),
          length-collected (omega arith),
          get_or-take p.rx_index p.rx_buffer 1 0 (omega arith),
          ltb-false p.rx_index 6 six,
          size,
        )
        (elim (Bool-cases (leb (8 + len) p.rx_index)) [
          | inl full ↦ rw full (
              complete_frame-Refines p buffer_size payload_size byte
                (omega (arith, leb→le _ _ full)))
          | inr short ↦ rw short (
              waiting-Refines (omega (arith, leb→lt _ _ short)) (inr byte) (inr (leb→lt _ _ short)))
        ])

receive-cons : (c : Bytes) (b : ℕ) → 0 < length c → receive c b ≡ receive_more (c ++ b ∷ [])
unfolding receive
receive-cons [] b h = absurd (omega arith)
receive-cons (x ∷ c) b h = refl

module _ (p : Parser) (v : IsValid p) (byte : ℕ) (is_byte : IsByte byte) where
  abbrev appended : Parser
  appended = record p { rx_buffer = set p.rx_buffer p.rx_index byte; rx_index = suc p.rx_index }

  append_byte-appended : append_byte p byte ≡ some appended
  unfolding append_byte
  append_byte-appended =
      let n : u16 (p.rx_index + 1) ≡ suc p.rx_index = omega (arith, v.index_in) in
      rw (store-some p.rx_buffer p.rx_index byte (omega (arith, v.buffer_size, v.index_in)), n)

  collected-appended : collected appended ≡ collected p ++ byte ∷ []
  collected-appended =
      take-set p.rx_buffer p.rx_index byte (omega (arith, v.buffer_size, v.index_in))

  appended_size : length appended.rx_buffer ≡ rx_buffer_size
  appended_size = length-set p.rx_buffer p.rx_index byte ∙ v.buffer_size

  -- Index 0: only the start byte is kept.
  idle-Refines :
      p.rx_index ≡ 0
      → Refines p.current_packet (receive [] byte) (
          if byte == stx_v1 then (append_byte p byte >>= λ q. some (false, q)) else some (false, p))
  unfolding receive
  idle-Refines e = elim (Bool-cases (byte == stx_v1)) [
    | inl start ↦
        rw (start, append_byte-appended, ← one)
          (waiting-Refines appended appended_size v.payload_size v.packet_len (omega arith)
            (inl (omega arith)) (inl (omega arith)))
    | inr other ↦
        rw other (record { next = p; returns = refl; valid = v; keeps = rw e; packet = refl })
  ]
    where
      one : collected appended ≡ byte ∷ []
      one = collected-appended ∙ rw e

  module _ (begun : 0 < p.rx_index) where
    len_kept : 2 ≤ p.rx_index → get_or appended.rx_buffer 1 0 ≡ get_or p.rx_buffer 1 0
    len_kept h = get_or-set_ne p.rx_buffer p.rx_index 1 byte 0 (omega arith)

    len_new : p.rx_index ≡ 1 → get_or appended.rx_buffer 1 0 ≡ byte
    len_new h =
        ap (λ i. get_or (set p.rx_buffer i byte) 1 0) h
        ∙ get_or-set_self p.rx_buffer 1 byte 0 (omega (arith, v.buffer_size))

    len_is_byte : IsByte (get_or appended.rx_buffer 1 0)
    len_is_byte = ground (arith, v.len_byte, len_kept, len_new)

    -- A frame has begun: the byte is appended, and decides once the header is there.
    busy-Refines :
        Refines p.current_packet (receive (collected p) byte) (
          append_byte p byte >>= λ q.
          (if leb 6 q.rx_index then check_length q else some (false, q)))
    busy-Refines =
        rw (append_byte-appended, receive-cons (collected p) byte some_bytes, ← collected-appended)
          (elim (Bool-cases (leb 6 (suc p.rx_index))) [
            | inl six ↦ rw six (
                check_length-Refines appended appended_size v.payload_size v.packet_len
                  (leb→le 6 _ six) (ground (arith, v.incomplete, len_kept, leb→le 6 _ six))
                  len_is_byte)
            | inr few ↦
                rw (few, small, ltb-true _ 6 (leb→lt 6 _ few))
                  (waiting-Refines appended appended_size v.payload_size v.packet_len
                    (omega (arith, leb→lt 6 _ few)) (inr len_is_byte) (inl (leb→lt 6 _ few)))
          ])
      where
        some_bytes : 0 < length (collected p)
        some_bytes =
            omega (arith, length-collected p v.buffer_size v.payload_size v.packet_len, v.index_in)

        small : length (collected appended) ≡ suc p.rx_index
        small =
            length-collected appended appended_size v.payload_size v.packet_len
              (omega (arith, v.index_in))

  pub parse_byte-Refines : Refines p.current_packet (receive (collected p) byte) (parse_byte p byte)
  unfolding parse_byte
  parse_byte-Refines = elim (Bool-cases (p.rx_index == 0)) [
    | inl idle ↦
        let e : p.rx_index ≡ 0 = (==_iff _ _).0 idle in
        let nothing : collected p ≡ [] = ap (λ n. take n p.rx_buffer) e in
        rw (idle, ltb-false 0 p.rx_index (omega arith), nothing) (idle-Refines e)
    | inr busy ↦
        rw (busy, ltb-true 0 p.rx_index (ground arith), ltb-true p.rx_index 280 v.index_in)
          (busy-Refines (ground arith))
  ]
