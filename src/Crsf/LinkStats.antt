-- ===== src/Crsf/LinkStats.antt =====
-- What `parseLinkStats` and `getRSSIFromLinkStats` make of a packet.
use sky_sweep.Prelude.{
  ℕ, zero, suc, ◌-◌, ◌≤◌, ◌<◌, ◌≡◌, sym, ap, ◌∙◌, refl, arith, none, some, Option, [], ◌∷◌, set,
  length-set, get_or-set_self, inl, inr, ◌≢◌, ◌↔◌, Bool-cases, leb, leb→le, Bytes, length, take,
  get_or, get_elem?, get_elem?-take, get_elem?-eq-get_or, leb-true,
}
use sky_sweep.Prelude.Int.{ℤ, pos, neg, signed8}
use sky_sweep.Crsf.Parser.{Packet, payload_size_max}
use sky_sweep.Crsf.Decode.{LinkStats, read_link_stats, parse_link_stats, rssi_from_link_stats}

-- Two packets with the same length byte that received the same payload bytes.
pub record SameFrame (p q : Packet) : Type 0 where
  pub same_length : p.length ≡ q.length
  pub same_bytes : take (p.length - 2) p.payload ≡ take (p.length - 2) q.payload

same_byte :
    (p q : Packet) (i : ℕ)
    → SameFrame p q
    → i < p.length - 2
    → get_elem? p.payload i ≡ get_elem? q.payload i
same_byte p q i s h =
    sym (get_elem?-take (p.length - 2) p.payload i h)
    ∙ ap (λ bs. get_elem? bs i) s.same_bytes
    ∙ get_elem?-take (p.length - 2) q.payload i h

-- The fields from the bytes of the array.
abbrev stats_of : Bytes → LinkStats
stats_of payload = record {
  uplink_rssi_1 = get_or payload 0 0;
  uplink_rssi_2 = get_or payload 1 0;
  uplink_link_quality = get_or payload 2 0;
  uplink_snr = signed8 (get_or payload 3 0);
  active_antenna = get_or payload 4 0;
  rf_mode = get_or payload 5 0;
  uplink_tx_power = get_or payload 6 0;
  downlink_rssi = get_or payload 7 0;
  downlink_link_quality = get_or payload 8 0;
  downlink_snr = signed8 (get_or payload 9 0);
}

read_link_stats-stats_of :
    (payload : Bytes) → 10 ≤ length payload → read_link_stats payload ≡ some (stats_of payload)
unfolding read_link_stats
read_link_stats-stats_of payload h = rw (
  at 0 (omega arith),
  at 1 (omega arith),
  at 2 (omega arith),
  at 3 (omega arith),
  at 4 (omega arith),
  at 5 (omega arith),
  at 6 (omega arith),
  at 7 (omega arith),
  at 8 (omega arith),
  at 9 (omega arith),
)
  where
    at : (i : ℕ) → i < 10 → get_elem? payload i ≡ some (get_or payload i 0)
    at i k = get_elem?-eq-get_or payload i 0 (omega (arith, h))

read_link_stats_same :
    (xs ys : Bytes)
    → ((i : ℕ) → i < 10 → get_elem? xs i ≡ get_elem? ys i)
    → read_link_stats xs ≡ read_link_stats ys
unfolding read_link_stats
read_link_stats_same xs ys at = rw (
  at 0 (omega arith),
  at 1 (omega arith),
  at 2 (omega arith),
  at 3 (omega arith),
  at 4 (omega arith),
  at 5 (omega arith),
  at 6 (omega arith),
  at 7 (omega arith),
  at 8 (omega arith),
  at 9 (omega arith),
)

-- Two packets with the same length byte, other than 11, and the same received payload bytes decode
-- to the same link statistics.
pub parse_link_stats_received :
    (p q : Packet) → p.length ≢ 11 → SameFrame p q → parse_link_stats p ≡ parse_link_stats q
unfolding parse_link_stats
parse_link_stats_received p q h s = elim (Bool-cases (leb 11 p.length)) [
  | inl long ↦
      rw (← s.same_length, long)
        (read_link_stats_same p.payload q.payload
          (λ i k. same_byte p q i s (omega (arith, leb→le 11 p.length long))))
  | inr short ↦ rw (← s.same_length, short)
]

take-set_before : (i : ℕ) (xs : Bytes) (v : ℕ) → take i (set xs i v) ≡ take i xs
take-set_before zero xs v = refl
take-set_before (suc i) [] v = refl
take-set_before (suc i) (x ∷ xs) v = ap (◌∷◌ x) (take-set_before i xs v)

-- The packet with another tenth byte.
abbrev with_tenth : ℕ → Packet → Packet
with_tenth v p = record p { payload = set p.payload 9 v }

with_tenth-SameFrame : (v : ℕ) (p : Packet) → p.length ≡ 11 → SameFrame p (with_tenth v p)
with_tenth-SameFrame v p h =
    let nine : p.length - 2 ≡ 9 = omega arith in
    record { same_length = refl; same_bytes = rw nine (sym (take-set_before 9 p.payload v)) }

abbrev snr_or : ℤ → Option LinkStats → ℤ
snr_or z none = z
snr_or z (some stats) = stats.downlink_snr

-- A packet of length 11 decodes to a downlink_SNR that is the tenth byte of the array.
parse_link_stats-with_tenth :
    (v : ℕ) (p : Packet)
    → p.length ≡ 11
    → length p.payload ≡ payload_size_max
    → snr_or (pos 0) (parse_link_stats (with_tenth v p)) ≡ signed8 v
unfolding parse_link_stats
parse_link_stats-with_tenth v p h size =
    let long : 10 ≤ length (set p.payload 9 v) = omega (arith, length-set p.payload 9 v, size) in
    rw (leb-true 11 p.length (omega (arith, h)), read_link_stats-stats_of _ long)
      (ap signed8 (get_or-set_self p.payload 9 v 0 (omega (arith, size))))

-- All packets with the same length byte and the same received payload bytes as a packet with a
-- payload array of 60 bytes decode to the same link statistics as that packet exactly if its length
-- is not 11: at length 11 the statistics depend on more than the frame brought.
pub parse_link_stats_stale :
    (p : Packet)
    → length p.payload ≡ payload_size_max
    → ((q : Packet) → SameFrame p q → parse_link_stats p ≡ parse_link_stats q) ↔ (p.length ≢ 11)
parse_link_stats_stale p size = (
  λ same h.
      let zeroth = same (with_tenth 0 p) (with_tenth-SameFrame 0 p h) in
      let first = same (with_tenth 1 p) (with_tenth-SameFrame 1 p h) in
      let equal : signed8 0 ≡ signed8 1 =
        sym (parse_link_stats-with_tenth 0 p h size)
        ∙ ap (snr_or (pos 0)) (sym zeroth ∙ first)
        ∙ parse_link_stats-with_tenth 1 p h size in
      absurd (zero_is_not_one equal),
  λ h q s. parse_link_stats_received p q h s,
)
  where
    zero_is_not_one : signed8 0 ≢ signed8 1
    zero_is_not_one e = cc e

-- For a byte, getRSSIFromLinkStats is the negated byte exactly if the byte is at most 128.
pub rssi_from_link_stats_documented :
    (stats : LinkStats)
    → stats.uplink_rssi_1 < 256
    → (rssi_from_link_stats stats ≡ neg (pos stats.uplink_rssi_1)) ↔ (stats.uplink_rssi_1 ≤ 128)
unfolding rssi_from_link_stats
rssi_from_link_stats_documented stats h = (λ e. ground arith, λ k. ground arith)
