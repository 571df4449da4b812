-- ===== src/Rx5808/Channel.antt =====
-- Which channel the receiver is on.
use sky_sweep.Prelude.{
  ℕ, ◌+◌, ◌%◌, ◌<◌, ◌≡◌, refl, Bool, true, false, not, List, [], ◌∷◌, arith, ◌==◌, ==_iff,
  Bool-cases, inl, inr, leb-false, length, bit_and, holds_below, holds_below-passes, sym, subst,
  ◌∙◌,
}
use sky_sweep.Prelude.Int.{ℤ}
use sky_sweep.Rx5808.Driver.{Driver, set_channel, scan_next_channel, begin}

-- The number that the pins show.
abbrev pub bit : Bool → ℕ → ℕ
bit true weight = weight
bit false weight = 0

abbrev pub shown : Driver → ℕ
shown d = bit d.channel_1 1 + bit d.channel_2 2 + bit d.channel_3 4

-- The pins show the current channel, which is one of the eight.
pub record IsTuned (d : Driver) : Type 0 where
  pub channel_in : d.current_channel < 8
  pub pins : shown d ≡ d.current_channel

bits_table :
    holds_below
      (λ c.
        bit (not (bit_and c 1 == 0)) 1
          + bit (not (bit_and c 2 == 0)) 2
          + bit (not (bit_and c 4 == 0)) 4
        == c)
      8
    ≡ true
unfolding holds_below
bits_table = refl

set_channel-IsTuned :
    (c : ℕ) (d : Driver)
    → c < 8
    → IsTuned (set_channel c d)
      × ((set_channel c d).current_channel ≡ c)
      × ((set_channel c d).scan_started ≡ d.scan_started)
      × ((set_channel c d).initialized ≡ d.initialized)
unfolding set_channel
set_channel-IsTuned c d h = rw (leb-false 8 c h) (
  record { channel_in = h; pins = (==_iff _ _).0 (holds_below-passes _ 8 c bits_table h) },
  refl,
  refl,
  refl,
)

-- The driver after a number of scans.
abbrev after_scans : List ℤ → Driver → Driver
after_scans [] d = d
after_scans (r ∷ rs) d = after_scans rs (scan_next_channel r d).1

next_scan :
    (r : ℤ) (d : Driver)
    → d.initialized ≡ true
    → d.scan_started ≡ true
    → (scan_next_channel r d).1 ≡ set_channel ((d.current_channel + 1) % 8) d
unfolding scan_next_channel
next_scan r d i s = simp (i, s)

-- From an initialized driver whose scan has started and whose pins show its channel, n calls of
-- scanNextChannel move it n channels on, round the eight, and its pins show that channel.
after_scans-IsTuned :
    (readings : List ℤ) (d : Driver)
    → IsTuned d
    → d.initialized ≡ true
    → d.scan_started ≡ true
    → IsTuned (after_scans readings d)
      × ((after_scans readings d).current_channel ≡ (d.current_channel + length readings) % 8)
after_scans-IsTuned [] d t i s = (t, omega (arith, t.channel_in))
after_scans-IsTuned (r ∷ rs) d t i s =
    let c = (d.current_channel + 1) % 8 in
    let (tuned, at, started, ready) = set_channel-IsTuned c d (omega arith) in
    let (later, there) = after_scans-IsTuned rs (set_channel c d) tuned (ready ∙ i) (started ∙ s) in
    subst
      (λ e.
        IsTuned (after_scans rs e)
        × ((after_scans rs e).current_channel ≡ (d.current_channel + length (r ∷ rs)) % 8))
      (sym (next_scan r d i s)) (later, omega (arith, there, at))

-- A scan leaves the receiver on the channel that its pins show.
pub scan_next_channel-IsTuned : (r : ℤ) (d : Driver) → IsTuned d → IsTuned (scan_next_channel r d).1
unfolding scan_next_channel
scan_next_channel-IsTuned r d t = elim (Bool-cases d.initialized) [
  | inr cold ↦ simp cold t
  | inl ready ↦ elim (Bool-cases d.scan_started) [
    | inl started ↦
        simp (ready, started) (set_channel-IsTuned ((d.current_channel + 1) % 8) d (omega arith)).0
    | inr new ↦ simp (ready, new) (record { channel_in = t.channel_in; pins = t.pins })
  ]
]

-- On the board's pins, which differ, `begin` selects the first channel.
pub begin-IsTuned : (d : Driver) → IsTuned (begin 6 7 14 d).1
unfolding begin
begin-IsTuned d =
    let t = (set_channel-IsTuned 0 d (omega arith)).0 in
    record { channel_in = t.channel_in; pins = t.pins }
