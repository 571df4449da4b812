-- ===== src/Crsf/Delivery.antt =====
-- What a user of `CRSFParser` can rely on: `parseBuffer` on a stream of bytes.
use sky_sweep.Prelude.{
  ℕ, ◌+◌, ◌-◌, ◌≤◌, ◌≡◌, refl, ap, ◌∙◌, inl, Bool, true, Option, none, some, [], ◌∷◌, ◌++◌, arith,
  Bytes, length, take, drop, get_or, subst, take-length, false≢true, length-take,
}
use sky_sweep.Crsf.Crc.{crc_over}
use sky_sweep.Crsf.Parser.{Parser, parse_buffer, payload_size_max}
use sky_sweep.Crsf.Frame.{wire, scan, type_of, payload_of}
use sky_sweep.Crsf.Relation.{IsValid, Holds, collected}
use sky_sweep.Crsf.Stream.{parse_buffer-Scans, Scans}
use sky_sweep.Crsf.Wire.{scan-wire, IsFrame-wire, is_intact-wire}
use sky_sweep.Crsf.Found.{Found, scan-Found}

-- The parser's packet is a valid one with this type and payload.
pub record Delivers (type : ℕ) (payload : Bytes) (p : Parser) : Type 0 where
  pub type_is : p.current_packet.type ≡ type
  pub length_is : p.current_packet.length ≡ length payload + 2
  pub payload_is : take (length payload) p.current_packet.payload ≡ payload
  pub flagged : p.current_packet.valid ≡ true

Holds-Delivers :
    {type : ℕ} {payload : Bytes} (p : Parser)
    → Holds (wire type payload) p.current_packet
    → Delivers type payload p
Holds-Delivers {type} {payload} p h =
    let n : length payload + 2 - 2 ≡ length payload = omega arith in
    record {
      type_is = h.type;
      length_is = h.length;
      payload_is = (rw n at h.payload) ∙ take-length payload (crc_over 0 (type ∷ payload) ∷ []);
      flagged = h.valid ∙ is_intact-wire type payload;
    }

-- An idle, valid parser that is fed the wire form of a type and of at most 60 payload bytes, and
-- then anything, returns true with that type and payload in its packet and is idle and valid again.
pub parse_buffer-wire :
    (type : ℕ) (payload rest : Bytes) (p : Parser)
    → IsValid p
    → p.rx_index ≡ 0
    → length payload ≤ payload_size_max
    → (q : Parser) × (parse_buffer p (wire type payload ++ rest) ≡ some (true, q))
      × Delivers type payload q
      × IsValid q
      × (collected q ≡ [])
parse_buffer-wire type payload rest p v e h =
    let idle : collected p ≡ [] = ap (λ n. take n p.rx_buffer) e in
    let found : scan (collected p) (wire type payload ++ rest) ≡ ([], some (wire type payload)) =
      rw idle (scan-wire type payload rest h) in
    let s = rw found at (parse_buffer-Scans (wire type payload ++ rest) p v) in
    (s.next, s.returns, Holds-Delivers s.next s.packet, s.valid, s.keeps)

-- A frame with a right CRC stands in the stream, and the packet of the parser is that frame.
pub record Heard (bs : Bytes) (q : Parser) : Type 0 where
  pub type : ℕ
  pub payload : Bytes
  pub before : Bytes
  pub after : Bytes
  pub splits : bs ≡ before ++ (wire type payload ++ after)
  pub fits : length payload ≤ payload_size_max
  pub delivers : Delivers type payload q

Found-Heard : {bs f : Bytes} (q : Parser) → Found bs f → Holds f q.current_packet → Heard bs q
Found-Heard {bs} {f} q w h =
    let whole = IsFrame-wire f w.frame w.intact in
    record {
      type = type_of f;
      payload = payload_of f;
      before = w.before;
      after = w.after;
      splits = w.splits ∙ ap (λ g. w.before ++ (g ++ w.after)) whole;
      fits = omega (arith, w.frame.high, length-take (get_or f 1 0 - 2) (drop 3 f));
      delivers = Holds-Delivers q (subst (λ g. Holds g q.current_packet) whole h);
    }

reported-Heard :
    {bs : Bytes} {result : Option (Bool × Parser)} (q : Parser) (kept : Bytes) (g : Option Bytes)
    → ((f : Bytes) → g ≡ some f → Found bs f)
    → Scans (kept, g) result
    → result ≡ some (true, q)
    → Heard bs q
reported-Heard q kept none found s h = absurd (false≢true (cc (s.returns)))
reported-Heard q kept (some f) found s h =
    let same : s.next ≡ q = cc (s.returns) in
    Found-Heard q (found f refl) (subst (λ p. Holds f p.current_packet) same s.packet)

-- If parseBuffer of an idle, valid parser returns true, the input holds a frame of at most 60
-- payload bytes with a right CRC, and the packet has its type, length and payload and is flagged
-- valid.
pub parse_buffer_sound :
    (bs : Bytes) (p q : Parser)
    → IsValid p
    → p.rx_index ≡ 0
    → parse_buffer p bs ≡ some (true, q)
    → Heard bs q
parse_buffer_sound bs p q v e h =
    let idle : collected p ≡ [] = ap (λ n. take n p.rx_buffer) e in
    let s = rw idle at (parse_buffer-Scans bs p v) in
    reported-Heard q (scan [] bs).0 (scan [] bs).1
      (λ f. scan-Found bs [] (record { synced = inl refl; bounded = inl (omega arith) })) s h
