-- ===== src/Mavlink/Stream.antt =====
-- `parseBuffer` over a whole stream: no fault, and the answers of `scan`.
use sky_sweep.Prelude.{
  ◌≡◌, refl, inl, inr, Bool, true, false, Option, none, some, [], ◌∷◌, arith, Bytes, IsByte, All,
  Bool-cases, ◌>>=◌,
}
use sky_sweep.Mavlink.Parser.{Packet, Parser, parse_byte, parse_buffer, unless_found, new_parser}
use sky_sweep.Mavlink.Frame.{
  receive, scan, scan_after, is_intact, collected, Holds, IsValid, Refines,
}
use sky_sweep.Mavlink.Byte.{parse_byte-Refines}

abbrev pub is_found : Option Bytes → Bool
is_found none = false
is_found (some f) = true

-- The packet is that of the frame that was found, and that frame is intact.
abbrev pub Reports : Option Bytes → Parser → Type 0
Reports none p = Unit
Reports (some f) p = Holds f p.current_packet × (is_intact f ≡ true)

-- `parseBuffer` returns with the answer `r`, in a valid state.
pub record Scans (r : Bytes × Option Bytes) (result : Option (Bool × Parser)) : Type 0 where
  pub next : Parser
  pub returns : result ≡ some (is_found r.1, next)
  pub valid : IsValid next
  pub keeps : collected next ≡ r.0
  pub packet : Reports r.1 next

module _ (bs : Bytes)
    (rest : (p : Parser) → IsValid p → Scans (scan (collected p) bs) (parse_buffer p bs)) where
  -- One byte, given the claim for the bytes behind it.
  after_byte :
      {old : Packet} (kept : Bytes) (frame : Option Bytes) (result : Option (Bool × Parser))
      → Refines old (kept, frame) result
      → Scans
          (scan_after (kept, frame) (λ k. scan k bs))
          (result >>= λ (found, q). unless_found found q (λ r. parse_buffer r bs))
  after_byte kept none result r = rw (r.returns, ← r.keeps) (rest r.next r.valid)
  after_byte kept (some f) result r = elim (Bool-cases (is_intact f)) [
    | inl good ↦
        rw (r.returns, good)
          (record {
            next = r.next;
            returns = refl;
            valid = r.valid;
            keeps = r.keeps;
            packet = (r.packet, good);
          })
    | inr damaged ↦ rw (r.returns, damaged, ← r.keeps) (rest r.next r.valid)
  ]

-- From a valid state, parseBuffer on any list of bytes returns (no access leaves its arrays), is in
-- a valid state again, and its answer, kept bytes and packet are those of the list-based receiver
-- `scan`.
pub parse_buffer-scan :
    (bs : Bytes) (p : Parser)
    → All IsByte bs
    → IsValid p
    → Scans (scan (collected p) bs) (parse_buffer p bs)
unfolding parse_buffer scan
parse_buffer-scan [] p _ v = record {
  next = p;
  returns = refl;
  valid = v;
  keeps = refl;
  packet = tt;
}
parse_buffer-scan (b ∷ bs) p (byte, bytes) v =
    let step = parse_byte-Refines p v b byte in
    after_byte bs (λ q w. parse_buffer-scan bs q bytes w) (receive (collected p) b).0
      (receive (collected p) b).1 (parse_byte p b) step

pub start-IsValid : IsValid new_parser
start-IsValid = record {
  buffer_size = refl;
  payload_size = refl;
  packet_len = omega arith;
  index_in = omega arith;
  len_byte = inl (omega arith);
  incomplete = inl (omega arith);
}
