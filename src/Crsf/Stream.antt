-- ===== src/Crsf/Stream.antt =====
-- `parseBuffer` over a whole stream: no fault, and the answers of `scan`.
use sky_sweep.Prelude.{
  ◌≡◌, refl, inl, inr, Bool, true, false, Option, none, some, [], ◌∷◌, arith, Bytes, Bool-cases,
  ◌>>=◌,
}
use sky_sweep.Crsf.Parser.{Packet, Parser, parse_byte, parse_buffer, unless_found, new_parser}
use sky_sweep.Crsf.Frame.{receive, scan, scan_after, is_intact}
use sky_sweep.Crsf.Relation.{collected, Holds, IsValid, Refines}
use sky_sweep.Crsf.Byte.{parse_byte-Refines}

abbrev pub is_found : Option Bytes → Bool
is_found none = false
is_found (some f) = true

-- The packet is that of the frame that was found.
abbrev pub Reports : Option Bytes → Parser → Type 0
Reports none p = Unit
Reports (some f) p = Holds f p.current_packet

-- `parseBuffer` returns with the answer `r`, in a valid state.
pub record Scans (r : Bytes × Option Bytes) (result : Option (Bool × Parser)) : Type 0 where
  pub next : Parser
  pub returns : result ≡ some (is_found r.1, next)
  pub valid : IsValid next
  pub keeps : collected next ≡ r.0
  pub packet : Reports r.1 next

module _ (bs : Bytes)
    (rest : (p : Parser) → IsValid p → Scans (scan (collected p) bs) (parse_buffer p bs)) where
  -- One byte, given the claim for the bytes behind it.
  after_byte :
      {old : Packet} (kept : Bytes) (frame : Option Bytes) (result : Option (Bool × Parser))
      → Refines old (kept, frame) result
      → Scans
          (scan_after (kept, frame) (λ k. scan k bs))
          (result >>= λ (found, q). unless_found found q (λ r. parse_buffer r bs))
  after_byte kept none result r = rw (r.returns, ← r.keeps) (rest r.next r.valid)
  after_byte kept (some f) result r = elim (Bool-cases (is_intact f)) [
    | inl good ↦
        rw (r.returns, good)
          (record {
            next = r.next;
            returns = refl;
            valid = r.valid;
            keeps = r.keeps;
            packet = r.packet;
          })
    | inr damaged ↦ rw (r.returns, damaged, ← r.keeps) (rest r.next r.valid)
  ]

-- From a valid state, parseBuffer on any byte stream returns (no access leaves its arrays), keeps
-- the state valid, and its answer, kept bytes and packet are those of the list-based receiver
-- `scan`.
pub parse_buffer-Scans :
    (bs : Bytes) (p : Parser) → IsValid p → Scans (scan (collected p) bs) (parse_buffer p bs)
unfolding parse_buffer scan
parse_buffer-Scans [] p v = record {
  next = p;
  returns = refl;
  valid = v;
  keeps = refl;
  packet = tt;
}
parse_buffer-Scans (b ∷ bs) p v =
    let step = parse_byte-Refines p v b in
    after_byte bs (parse_buffer-Scans bs) (receive (collected p) b).0 (receive (collected p) b).1
      (parse_byte p b) step

pub new_parser-IsValid : IsValid new_parser
new_parser-IsValid = record {
  buffer_size = refl;
  payload_size = refl;
  index_in = omega arith;
  partial = record { synced = inl refl; bounded = inl (omega arith) };
}
