-- ===== src/Alert/Silence.antt =====
-- Stealth: `update` neither sounds nor lights.
use sky_sweep.Prelude.{
  ℕ, ◌≡◌, inl, inr, Bool, true, false, not, ◌&&◌, List, [], ◌∷◌, Bool-cases, arith,
}
use sky_sweep.Alert.Manager.{
  Action, tone, no_tone, led, wait, vibrate, buzzer_low, Manager, update, update_beeps, update_led,
  end_tone,
}

-- The action makes no sound and no light: a tone ends, the motor moves, time passes.
abbrev pub is_dark : Action → Bool
is_dark (tone freq duration) = false
is_dark no_tone = true
is_dark (led on) = not on
is_dark (vibrate on) = true
is_dark buzzer_low = true
is_dark (wait ms) = true

abbrev pub all_dark : List Action → Bool
all_dark [] = true
all_dark (a ∷ rest) = is_dark a && all_dark rest

-- With stealth on at both readings, update neither sounds the buzzer nor lights the LED, and leaves
-- the current alert and the LED state as they are.
pub update_stealth :
    (now now' : ℕ) (m : Manager)
    → (all_dark (update true now true now' m).0 ≡ true)
      × ((update true now true now' m).1.current_alert ≡ m.current_alert)
      × ((update true now true now' m).1.led_state ≡ m.led_state)
unfolding update update_beeps update_led end_tone
update_stealth now now' m = elim (Bool-cases m.led_enabled) [
  | inl on ↦ rw on (ground arith)
  | inr off ↦ rw off (ground arith)
]
