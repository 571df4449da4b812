-- ===== src/Mavlink/Wire.antt =====
-- The wire form of a MAVLink frame is found in a stream by the receiver of Mavlink/Frame.
use mathlib.Core.List.{append_assoc}
use sky_sweep.Prelude.{
  ℕ, suc, ◌+◌, ◌/◌, ◌%◌, ◌<◌, ◌≡◌, refl, ap, ◌∙◌, true, Option, none, some, [], ◌∷◌, ◌++◌, arith,
  Bytes, length, get_or, length-append, take-length, get_or-length, get_or-append_left, ==_refl,
}
use sky_sweep.Prelude.Bits.{bit_or-shifted}
use sky_sweep.Prelude.Int.{pos}
use sky_sweep.Mavlink.Crc.{crc_extra, crc_over-bounded}
use sky_sweep.Mavlink.Parser.{stx_v1}
use sky_sweep.Mavlink.Frame.{
  Header, wire, checksum_of, payload_of, checksum_in, is_intact, receive, receive_more, scan,
  scan_after,
}

receive-append : (c : Bytes) (b : ℕ) → 0 < length c → receive c b ≡ receive_more (c ++ b ∷ [])
unfolding receive
receive-append [] b h = absurd (omega arith)
receive-append (x ∷ c) b h = refl

scan-receive :
    (c : Bytes) (b : ℕ) (bs : Bytes) {r : Bytes × Option Bytes}
    → receive c b ≡ r
    → scan c (b ∷ bs) ≡ scan_after r (λ k. scan k bs)
unfolding scan
scan-receive c b bs e = ap (λ r. scan_after r (λ k. scan k bs)) e

module _ (h : Header) (payload : Bytes) (extra : ℕ) where
  abbrev size : ℕ
  size = length payload

  abbrev sum : ℕ
  sum = checksum_of h payload extra

  abbrev tail_of : Bytes
  tail_of = (sum % 256) ∷ (sum / 256) ∷ []

  pub length-wire : length (wire h payload extra) ≡ size + 8
  length-wire = omega (arith, length-append payload tail_of)

  pub payload_of-wire : payload_of (wire h payload extra) ≡ payload
  payload_of-wire = take-length payload tail_of

  low_byte : get_or (wire h payload extra) (6 + size) 0 ≡ sum % 256
  low_byte =
      let at : 6 + size ≡ suc (suc (suc (suc (suc (suc size))))) = omega arith in
      rw (at, get_or-length payload (sum % 256) ((sum / 256) ∷ []) 0)

  high_byte : get_or (wire h payload extra) (7 + size) 0 ≡ sum / 256
  high_byte =
      let at : 7 + size ≡ suc (suc (suc (suc (suc (suc (length (payload ++ (sum % 256) ∷ []))))))) =
        omega (arith, length-append payload ((sum % 256) ∷ [])) in
      rw at (
        ap (λ bs. get_or bs (length (payload ++ (sum % 256) ∷ [])) 0) (sym_assoc)
        ∙ get_or-length (payload ++ (sum % 256) ∷ []) (sum / 256) [] 0)
    where
      sym_assoc : payload ++ tail_of ≡ (payload ++ (sum % 256) ∷ []) ++ (sum / 256) ∷ []
      sym_assoc = cc (append_assoc payload ((sum % 256) ∷ []) ((sum / 256) ∷ []))

  checksum_in-wire : checksum_in (wire h payload extra) ≡ sum
  checksum_in-wire =
      rw (low_byte, high_byte, bit_or-shifted 8 (sum / 256) (sum % 256) (omega arith))
        (omega (
          arith,
          crc_over-bounded
              (length payload ∷ h.seq ∷ h.sysid ∷ h.compid ∷ h.msgid ∷ (payload ++ extra ∷ []))
              0xFFFF (omega arith),
        ))

  pub is_intact-wire : crc_extra h.msgid ≡ pos extra → is_intact (wire h payload extra) ≡ true
  is_intact-wire known = rw known (rw (payload_of-wire, checksum_in-wire, ==_refl sum))

  receive_more-wire : receive_more (wire h payload extra) ≡ ([], some (wire h payload extra))
  receive_more-wire = ground (arith, length-wire)

  -- With bytes still missing the receiver goes on.
  receive_more_begun :
      (f missing : Bytes)
      → f ++ missing ≡ wire h payload extra
      → 0 < length missing
      → receive_more f ≡ (f, none)
  receive_more_begun f missing e present = ground (
    arith,
    length-wire,
    ap length e,
    length-append f missing,
    get_or-append_left f missing (wire h payload extra) 1 0 e,
  )

  module _ (known : crc_extra h.msgid ≡ pos extra) where
    scan_rest :
        (missing : Bytes) (b : ℕ) (kept rest : Bytes)
        → kept ++ (b ∷ missing) ≡ wire h payload extra
        → 0 < length kept
        → scan kept (b ∷ (missing ++ rest)) ≡ ([], some (wire h payload extra))
    unfolding scan
    scan_rest [] b kept rest e some_bytes =
        scan-receive kept b rest
          (receive-append kept b some_bytes ∙ ap receive_more e ∙ receive_more-wire)
        ∙ rw (is_intact-wire known)
    scan_rest (c ∷ missing) b kept rest e some_bytes =
        let whole = append_assoc kept (b ∷ []) (c ∷ missing) ∙ e in
        scan-receive kept b (c ∷ (missing ++ rest)) (
          receive-append kept b some_bytes
          ∙ receive_more_begun (kept ++ b ∷ []) (c ∷ missing) whole (omega arith))
        ∙ scan_rest missing c (kept ++ b ∷ []) rest whole
            (omega (arith, length-append kept (b ∷ [])))

    -- From the idle state a whole frame is found.
    pub scan-wire :
        (rest : Bytes) → scan [] (wire h payload extra ++ rest) ≡ ([], some (wire h payload extra))
    unfolding scan receive
    scan-wire rest =
        scan_rest (h.seq ∷ h.sysid ∷ h.compid ∷ h.msgid ∷ (payload ++ tail_of)) size (stx_v1 ∷ [])
          rest refl (omega arith)
