-- ===== src/Spi/Line.antt =====
-- Who may talk on the bus: a byte is sent only while exactly one chip is selected.
use sky_sweep.Prelude.{
  ℕ, ◌≡◌, refl, Bool, true, false, Option, none, some, List, [], ◌∷◌, if◌then◌else◌, Bytes, ◌>>=◌,
}
use sky_sweep.Spi.Bus.{
  Chip, cc1101, sx1281, sd_card, Event, low, high, sent, Bus, put, send, send_all, deselect_all,
  select_device,
}

abbrev pub is_same : Chip → Chip → Bool
is_same cc1101 cc1101 = true
is_same sx1281 sx1281 = true
is_same sd_card sd_card = true
is_same a b = false

-- The chip that is selected after an event, if no chip was selected while another one was and no
-- byte was sent to none.
abbrev pub after_event : Event → Option Chip → Option (Option Chip)
after_event (low c) none = some (some c)
after_event (low c) (some d) = none
after_event (high c) none = some none
after_event (high c) (some d) = if is_same c d then some none else some (some d)
after_event (sent x) none = none
after_event (sent x) (some d) = some (some d)

abbrev pub line : List Event → Option (Option Chip)
line [] = some none
line (e ∷ t) = line t >>= after_event e

-- No rule was broken, and no chip is selected.
abbrev pub IsIdle : Bus → Type 0
IsIdle b = line b.traffic ≡ some none

-- No rule was broken, and that chip is selected.
abbrev pub Selects : Chip → Bus → Type 0
Selects c b = line b.traffic ≡ some (some c)

pub put-low : (c : Chip) (b : Bus) → IsIdle b → Selects c (put (low c) b)
unfolding put
put-low c b h = rw h refl

pub put-high : (c : Chip) (b : Bus) → Selects c b → IsIdle (put (high c) b)
unfolding put
put-high cc1101 b h = rw h refl
put-high sx1281 b h = rw h refl
put-high sd_card b h = rw h refl

pub put-high-IsIdle : (c : Chip) (b : Bus) → IsIdle b → IsIdle (put (high c) b)
unfolding put
put-high-IsIdle c b h = rw h refl

pub send-Selects : (c : Chip) (x : ℕ) (b : Bus) → Selects c b → Selects c (send x b).1
unfolding send
send-Selects c x b h = rw h refl

pub send_all-Selects : (c : Chip) (xs : Bytes) (b : Bus) → Selects c b → Selects c (send_all xs b).1
unfolding send_all
send_all-Selects c [] b h = h
send_all-Selects c (x ∷ xs) b h = send_all-Selects c xs (send x b).1 (send-Selects c x b h)

pub deselect_all-IsIdle :
    (b : Bus) (s : Option Chip) → line b.traffic ≡ some s → IsIdle (deselect_all b)
unfolding deselect_all put
deselect_all-IsIdle b none h = rw h refl
deselect_all-IsIdle b (some cc1101) h = rw h refl
deselect_all-IsIdle b (some sx1281) h = rw h refl
deselect_all-IsIdle b (some sd_card) h = rw h refl

pub select_device-Selects :
    (c : Chip) (b : Bus) (s : Option Chip) → line b.traffic ≡ some s → Selects c (select_device c b)
unfolding select_device
select_device-Selects c b s h = put-low c (deselect_all b) (deselect_all-IsIdle b s h)

-- The second traffic is the first one with events that move the chip select of that chip only.
pub data Own (c : Chip) (t : List Event) : List Event → Type 0 where
  own_none : Own c t t
  own_sent : {u : List Event} {x : ℕ} → Own c t u → Own c t (sent x ∷ u)
  own_low : {u : List Event} → Own c t u → Own c t (low c ∷ u)
  own_high : {u : List Event} → Own c t u → Own c t (high c ∷ u)

pub Own-trans : {c : Chip} {t u v : List Event} → Own c t u → Own c u v → Own c t v
Own-trans p own_none = p
Own-trans p (own_sent q) = own_sent (Own-trans p q)
Own-trans p (own_low q) = own_low (Own-trans p q)
Own-trans p (own_high q) = own_high (Own-trans p q)

-- Between the two traffics no chip select moved but PIN_CC1101_CS, that of the sub-GHz receiver.
abbrev pub OnlySubGhz : List Event → List Event → Type 0
OnlySubGhz t u = Own cc1101 t u
