-- ===== src/Mavlink/Delivery.antt =====
-- What a user of `MAVLinkParser` can rely on: `parseBuffer` on a stream of bytes.
use sky_sweep.Prelude.{
  ℕ, ◌≤◌, ◌≡◌, refl, ap, sym, ◌∙◌, ==_iff, arith, Bool, true, Option, none, some, [], ◌++◌, Bytes,
  IsByte, All, length, take, get_or, false≢true, length-take,
}
use sky_sweep.Prelude.Int.{ℤ, pos, negsuc}
use sky_sweep.Mavlink.Crc.{crc_extra}
use sky_sweep.Mavlink.Parser.{Packet, Parser, parse_buffer}
use sky_sweep.Mavlink.Frame.{
  Header, wire, checksum_of, scan, is_intact, matches, sum_of, payload_of, checksum_in, collected,
  IsValid, Holds,
}
use sky_sweep.Mavlink.Stream.{Scans, parse_buffer-scan}
use sky_sweep.Mavlink.Wire.{scan-wire, is_intact-wire, payload_of-wire}

-- The packet of the parser is flagged valid and has this header and payload.
pub record Delivers (h : Header) (payload : Bytes) (p : Parser) : Type 0 where
  pub seq_is : p.current_packet.seq ≡ h.seq
  pub sysid_is : p.current_packet.sysid ≡ h.sysid
  pub compid_is : p.current_packet.compid ≡ h.compid
  pub msgid_is : p.current_packet.msgid ≡ h.msgid
  pub len_is : p.current_packet.len ≡ length payload
  pub payload_is : take (length payload) p.current_packet.payload ≡ payload
  pub flagged : p.current_packet.valid ≡ true

-- An idle, valid parser that is fed the wire form of a known message, and then anything (all of it
-- bytes), returns true with that header and payload in its packet, and is idle and valid again.
pub parse_buffer-frame :
    (h : Header) (payload rest : Bytes) (extra : ℕ) (p : Parser)
    → crc_extra h.msgid ≡ pos extra
    → All IsByte (wire h payload extra ++ rest)
    → IsValid p
    → p.rx_index ≡ 0
    → (q : Parser) × (parse_buffer p (wire h payload extra ++ rest) ≡ some (true, q))
      × Delivers h payload q
      × IsValid q
      × (collected q ≡ [])
parse_buffer-frame h payload rest extra p known bytes v e =
    let idle : collected p ≡ [] = ap (λ n. take n p.rx_buffer) e in
    let found : scan (collected p) (wire h payload extra ++ rest)
        ≡ ([], some (wire h payload extra)) =
      rw idle (scan-wire h payload extra known rest) in
    let s = rw found at (parse_buffer-scan (wire h payload extra ++ rest) p bytes v) in
    let holds = s.packet.0 in
    (
      s.next,
      s.returns,
      record {
        seq_is = holds.seq;
        sysid_is = holds.sysid;
        compid_is = holds.compid;
        msgid_is = holds.msgid;
        len_is = holds.len;
        payload_is = holds.payload ∙ payload_of-wire h payload extra;
        flagged = holds.valid ∙ is_intact-wire h payload extra known;
      },
      s.valid,
      s.keeps,
    )

-- The identifier of the packet is one that the parser knows, and its checksum is that of its own
-- fields and payload with the extra byte of the message.
pub record IsGenuine (packet : Packet) : Type 0 where
  pub extra : ℕ
  pub known : crc_extra packet.msgid ≡ pos extra
  pub summed :
      packet.checksum
      ≡ checksum_of
          (record {
            seq = packet.seq;
            sysid = packet.sysid;
            compid = packet.compid;
            msgid = packet.msgid;
          })
          (take packet.len packet.payload)
          extra
  pub flagged : packet.valid ≡ true

matches-IsGenuine :
    (f : Bytes) (packet : Packet) (extra : ℤ)
    → crc_extra (get_or f 5 0) ≡ extra
    → matches extra f ≡ true
    → Holds f packet
    → packet.len ≤ length packet.payload
    → is_intact f ≡ true
    → IsGenuine packet
matches-IsGenuine f packet (negsuc n) e good h fits intact = absurd (false≢true good)
matches-IsGenuine f packet (pos extra) e good h fits intact =
    let sum : sum_of f (payload_of f) extra ≡ checksum_in f = (==_iff _ _).0 good in
    let size : length (take packet.len packet.payload) ≡ packet.len =
      omega (arith, length-take packet.len packet.payload) in
    let bytes : take packet.len packet.payload ≡ payload_of f = rw h.len h.payload in
    record {
      extra = extra;
      known = ap crc_extra h.msgid ∙ e;
      summed = rw (size, bytes, h.len, h.seq, h.sysid, h.compid, h.msgid) (h.checksum ∙ sym sum);
      flagged = h.valid ∙ intact;
    }

reported-IsGenuine :
    {result : Option (Bool × Parser)} (q : Parser) (kept : Bytes) (g : Option Bytes)
    → Scans (kept, g) result
    → result ≡ some (true, q)
    → IsGenuine q.current_packet
reported-IsGenuine q kept none s h = absurd (false≢true (cc (s.returns)))
reported-IsGenuine q kept (some f) s h =
    let same : s.next ≡ q = cc (s.returns) in
    let v = rw same at s.valid in
    let (holds, intact) = rw same at s.packet in
    matches-IsGenuine f q.current_packet (crc_extra (get_or f 5 0)) refl intact holds
      (omega (arith, v.payload_size, v.packet_len)) intact

-- If parseBuffer of a valid parser returns true on a list of bytes, the packet has an identifier
-- that the parser knows, its checksum is that of its own fields and payload with the extra byte of
-- that message, and it is flagged valid.
pub parse_buffer-IsGenuine :
    (bs : Bytes) (p q : Parser)
    → All IsByte bs
    → IsValid p
    → parse_buffer p bs ≡ some (true, q)
    → IsGenuine q.current_packet
parse_buffer-IsGenuine bs p q bytes v h =
    let s = parse_buffer-scan bs p bytes v in
    reported-IsGenuine q (scan (collected p) bs).0 (scan (collected p) bs).1 s h
