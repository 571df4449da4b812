-- ===== src/Crsf/Channels.antt =====
-- `parseRCChannels` against the definition of the format: 16 numbers of 11 bits, packed from the
-- lowest bit up.
use native.Mathlib.Nat.{div-div-eq-div-mul, zero-div, mul_comm, pow-suc}
use sky_sweep.Prelude.{
  holds_below, holds_below-passes, Bool-cases, leb-true, ltb→lt, ltb→le, inl, inr, drop-cons, u8, ℕ,
  zero, suc, ◌+◌, ◌-◌, ◌*◌, ◌/◌, ◌%◌, ◌^◌, ◌≤◌, ◌<◌, ◌≡◌, refl, ap, arith, some, List, [], ◌∷◌,
  Bytes, IsByte, All, length, drop, get_or, le_number, u16, bit_and, bit_or, get_elem?-eq-get_or,
  true, ltb, ◌==◌, ==_iff, ltb-true,
}
use sky_sweep.Prelude.Bits.{bit_or-shifted, bit_and_mask}
use sky_sweep.Crsf.Parser.{Packet, payload_size_max}
use sky_sweep.Crsf.Decode.{rc_channel, rc_channels_from, parse_rc_channels}

abbrev two : ℕ → ℕ → ℕ → ℕ → ℕ
two s k a b = u16 (bit_or (u16 (a / 2 ^ s)) (b * 2 ^ k))

two-add : (s k a b : ℕ) → u16 (a / 2 ^ s) < 2 ^ k → two s k a b ≡ u16 (u16 (a / 2 ^ s) + b * 2 ^ k)
two-add s k a b h = rw (bit_or-shifted k b (u16 (a / 2 ^ s)) h)

-- Two bytes are enough for the 11 bits from bit `s` up where `s ≤ 5`.
two_bytes :
    (s a b r : ℕ)
    → s ≤ 5
    → a < 256
    → b < 256
    → bit_and (two s (8 - s) a b) 0x07FF ≡ (a + 256 * (b + 256 * r)) / 2 ^ s % 2048
two_bytes zero a b r h ha hb =
    omega (arith, bit_and_mask 11 (two 0 8 a b), two-add 0 8 a b (omega arith))
two_bytes (suc zero) a b r h ha hb =
    omega (arith, bit_and_mask 11 (two 1 7 a b), two-add 1 7 a b (omega arith))
two_bytes (suc (suc zero)) a b r h ha hb =
    omega (arith, bit_and_mask 11 (two 2 6 a b), two-add 2 6 a b (omega arith))
two_bytes (suc (suc (suc zero))) a b r h ha hb =
    omega (arith, bit_and_mask 11 (two 3 5 a b), two-add 3 5 a b (omega arith))
two_bytes (suc (suc (suc (suc zero)))) a b r h ha hb =
    omega (arith, bit_and_mask 11 (two 4 4 a b), two-add 4 4 a b (omega arith))
two_bytes (suc (suc (suc (suc (suc zero))))) a b r h ha hb =
    omega (arith, bit_and_mask 11 (two 5 3 a b), two-add 5 3 a b (omega arith))
two_bytes (suc (suc (suc (suc (suc (suc s)))))) a b r h ha hb = absurd (omega arith)

-- From bit 6 or 7 up the 11 bits reach into a third byte.
three_bytes :
    (s a b c r : ℕ)
    → 5 < s
    → s < 8
    → a < 256
    → b < 256
    → c < 256
    → bit_and (u16 (bit_or (two s (8 - s) a b) (c * 2 ^ (16 - s)))) 0x07FF
      ≡ (a + 256 * (b + 256 * (c + 256 * r))) / 2 ^ s % 2048
three_bytes (suc (suc (suc (suc (suc (suc zero)))))) a b c r h k ha hb hc = omega (
  arith,
  bit_and_mask 11 (u16 (bit_or (two 6 2 a b) (c * 1024))),
  two-add 6 2 a b (omega arith),
  bit_or-shifted 10 c (two 6 2 a b) (omega (arith, two-add 6 2 a b (omega arith))),
)
three_bytes (suc (suc (suc (suc (suc (suc (suc zero))))))) a b c r h k ha hb hc = omega (
  arith,
  bit_and_mask 11 (u16 (bit_or (two 7 1 a b) (c * 512))),
  two-add 7 1 a b (omega arith),
  bit_or-shifted 9 c (two 7 1 a b) (omega (arith, two-add 7 1 a b (omega arith))),
)
three_bytes _ a b c r h k ha hb hc = absurd (omega arith)

All-get_or : (i : ℕ) (xs : Bytes) → All IsByte xs → get_or xs i 0 < 256
All-get_or i [] h = omega arith
All-get_or zero (x ∷ xs) h = h.0
All-get_or (suc i) (x ∷ xs) h = All-get_or i xs h.1

All-drop : (n : ℕ) (xs : Bytes) → All IsByte xs → All IsByte (drop n xs)
All-drop zero xs h = h
All-drop (suc n) [] h = tt
All-drop (suc n) (x ∷ xs) h = All-drop n xs h.1

-- To divide by `256 ^ n` is to drop `n` bytes.
le_number-drop :
    (n : ℕ) (xs : Bytes) → All IsByte xs → le_number xs / 256 ^ n ≡ le_number (drop n xs)
le_number-drop zero xs h = omega arith
le_number-drop (suc n) [] h = zero-div (256 ^ suc n)
le_number-drop (suc n) (x ∷ xs) h =
    let tail : (x + 256 * le_number xs) / 256 ≡ le_number xs = omega (arith, h.0) in
    rw (pow-suc 256 n, mul_comm (256 ^ n) 256, ← div-div-eq-div-mul, tail) (le_number-drop n xs h.1)

split_table : holds_below (λ i. 2 ^ (11 * i) == 256 ^ (11 * i / 8) * 2 ^ (11 * i % 8)) 16 ≡ true
unfolding holds_below
split_table = refl

-- The bits from `11 * i` up start in byte `11 * i / 8`, at bit `11 * i % 8`.
shift_split :
    (i : ℕ) (xs : Bytes)
    → i < 16
    → All IsByte xs
    → le_number xs / 2 ^ (11 * i) ≡ le_number (drop (11 * i / 8) xs) / 2 ^ (11 * i % 8)
shift_split i xs h bytes =
    let power = (==_iff _ _).0 (holds_below-passes _ 16 i split_table h) in
    rw (power, ← div-div-eq-div-mul, le_number-drop (11 * i / 8) xs bytes)

abbrev pub channel_bits : Bytes → ℕ → ℕ
channel_bits payload i = le_number payload / 2 ^ (11 * i) % 2048

module _ (payload : Bytes) (size : 23 ≤ length payload) (bytes : All IsByte payload) where
  abbrev byte : ℕ → ℕ
  byte j = get_or payload j 0

  -- The payload from byte `q` on, as its first three bytes and the rest.
  from_byte :
      (q : ℕ)
      → q < 21
      → le_number (drop q payload)
        ≡ byte q
          + 256
            * (byte (suc q)
                + 256 * (byte (suc (suc q)) + 256 * le_number (drop (suc (suc (suc q))) payload)))
  from_byte q h = rw (
    drop-cons payload q 0 (omega (arith, size)),
    drop-cons payload (suc q) 0 (omega (arith, size)),
    drop-cons payload (suc (suc q)) 0 (omega (arith, size)),
  )

  rc_channel-bits : (i : ℕ) → i < 16 → rc_channel payload i ≡ some (channel_bits payload i)
  unfolding rc_channel
  rc_channel-bits i h =
      let q : ℕ = 11 * i / 8 in
      let byte_offset : u8 (u16 (i * 11) / 8) ≡ q = omega arith in
      let bit_in_byte : u16 (i * 11) % 8 ≡ 11 * i % 8 = omega arith in
      let next : q + 1 ≡ suc q = omega arith in
      let last : q + 2 ≡ suc (suc q) = omega arith in
      rw
        (
          byte_offset,
          bit_in_byte,
          next,
          last,
          get_elem?-eq-get_or payload q 0 (omega (arith, size)),
          get_elem?-eq-get_or payload (suc q) 0 (omega (arith, size)),
          get_elem?-eq-get_or payload (suc (suc q)) 0 (omega (arith, size)),
          shift_split i payload h bytes,
          from_byte q (omega arith),
          ltb-true 8 (11 * i % 8 + 11) (omega arith),
        )
        (elim (Bool-cases (ltb 16 (11 * i % 8 + 11))) [
          | inl wide ↦ rw (
            wide,
            three_bytes (11 * i % 8) (byte q) (byte (suc q)) (byte (suc (suc q)))
                (le_number (drop (suc (suc (suc q))) payload)) (omega (arith, ltb→lt 16 _ wide))
                (omega arith) (All-get_or q payload bytes) (All-get_or (suc q) payload bytes)
                (All-get_or (suc (suc q)) payload bytes),
          )
          | inr narrow ↦ rw (
            narrow,
            two_bytes (11 * i % 8) (byte q) (byte (suc q))
                (byte (suc (suc q)) + 256 * le_number (drop (suc (suc (suc q))) payload))
                (omega (arith, ltb→le 16 _ narrow)) (All-get_or q payload bytes)
                (All-get_or (suc q) payload bytes),
          )
        ])

-- The first `n` numbers of 11 bits of a number, from its lowest bit up.
abbrev pub unpacked : ℕ → ℕ → List ℕ
unpacked zero w = []
unpacked (suc n) w = (w % 2048) ∷ unpacked n (w / 2048)

-- Numbers of 11 bits packed from the lowest bit up, with `rest` above them.
abbrev pub packed : List ℕ → ℕ → ℕ
packed [] rest = rest
packed (c ∷ cs) rest = c + 2048 * packed cs rest

unpacked-packed :
    (cs : List ℕ) (rest : ℕ) → All (λ c. c < 2048) cs → unpacked (length cs) (packed cs rest) ≡ cs
unpacked-packed [] rest h = refl
unpacked-packed (c ∷ cs) rest h =
    let head : (c + 2048 * packed cs rest) % 2048 ≡ c = omega (arith, h.0) in
    let tail : (c + 2048 * packed cs rest) / 2048 ≡ packed cs rest = omega (arith, h.0) in
    rw (head, tail, unpacked-packed cs rest h.1)

step_table : holds_below (λ i. 2 ^ (11 * suc i) == 2 ^ (11 * i) * 2048) 16 ≡ true
unfolding holds_below
step_table = refl

rc_channels_from-unpacked :
    (n i : ℕ) (payload : Bytes)
    → 23 ≤ length payload
    → All IsByte payload
    → i + n ≤ 16
    → rc_channels_from n i payload ≡ some (unpacked n (le_number payload / 2 ^ (11 * i)))
unfolding rc_channels_from
rc_channels_from-unpacked zero i payload size bytes h = refl
rc_channels_from-unpacked (suc n) i payload size bytes h =
    let step = (==_iff _ _).0 (holds_below-passes _ 16 i step_table (omega arith)) in
    let next : le_number payload / 2 ^ (11 * suc i) ≡ le_number payload / 2 ^ (11 * i) / 2048 =
      rw (div-div-eq-div-mul, step) in
    rw (
      rc_channel-bits payload size bytes i (omega arith),
      rc_channels_from-unpacked n (suc i) payload size bytes (omega arith),
      next,
    )

-- A packet of length at least 24 whose 60-byte payload array starts with 16 channels of 11 bits,
-- packed from the lowest bit up, decodes to exactly these channels, without a read outside the
-- array.
pub parse_rc_channels-packed :
    (packet : Packet) (channels : List ℕ) (rest : ℕ)
    → 24 ≤ packet.length
    → length packet.payload ≡ payload_size_max
    → All IsByte packet.payload
    → length channels ≡ 16
    → All (λ c. c < 2048) channels
    → le_number packet.payload ≡ packed channels rest
    → parse_rc_channels packet ≡ some channels
unfolding parse_rc_channels
parse_rc_channels-packed packet channels rest h size bytes sixteen small same =
    let zeroth : le_number packet.payload / 2 ^ (11 * 0) ≡ packed channels rest =
      omega (arith, same) in
    let back = unpacked-packed channels rest small in
    rw
      (
        leb-true 24 packet.length h,
        rc_channels_from-unpacked 16 0 packet.payload (omega (arith, size)) bytes (omega arith),
        zeroth,
      )
      (ap some (rw sixteen at back))
