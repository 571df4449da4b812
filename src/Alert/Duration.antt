-- ===== src/Alert/Duration.antt =====
-- How long an alert lasts.
use sky_sweep.Prelude.{
  ℕ, ◌<◌, ◌≡◌, ◌≢◌, refl, sym, ap, ap₂, ◌∙◌, Bool, true, false, not, ◌&&◌, [], ◌∷◌, if◌then◌else◌,
  ◌==◌, ltb, sub32, arith,
}
use sky_sweep.Alert.Manager.{
  tone, AlertType, rank, Manager, update, update_beeps, update_led, alert_none, alert_info,
  alert_activity_medium, alert_activity_high, alert_activity_critical, alert_battery_low,
  alert_mesh_alert, end_tone, clear_alert, auto_clear, blink, alert, pattern_of, start_pattern,
}

-- The second half of `update` sees the alert that was there before the first half.
update_beeps_keeps :
    (stealth : Bool) (now : ℕ) (m : Manager)
    → ((update_beeps stealth now m).1.current_alert ≡ m.current_alert)
      × ((update_beeps stealth now m).1.led_enabled ≡ m.led_enabled)
      × ((update_beeps stealth now m).1.alert_start_time ≡ m.alert_start_time)
unfolding update_beeps end_tone
update_beeps_keeps stealth now m = ground arith

-- What is left at a time of an alert that began at another.
abbrev pub after_timeout : ℕ → ℕ → AlertType → AlertType
after_timeout now started type =
    if not (rank type == 4) && ltb 10000 (sub32 now started) then alert_none else type

update_led-after_timeout :
    (now : ℕ) (m : Manager)
    → m.led_enabled ≡ true
    → rank m.current_alert ≢ 0
    → (update_led false now m).1.current_alert
      ≡ after_timeout now m.alert_start_time m.current_alert
unfolding update_led auto_clear blink clear_alert
update_led-after_timeout now m on shown =
    let loud : (rank m.current_alert == 0) ≡ false = ground (arith, shown) in
    rw (on, loud) (ground arith)

-- With the LED enabled and stealth off at the second reading, update ends an alert other than the
-- critical one exactly if it began more than 10000 ms before that reading (modulo 2^32); a critical
-- or a younger alert stays.
pub update-after_timeout :
    (stealth : Bool) (now now' : ℕ) (m : Manager)
    → m.led_enabled ≡ true
    → rank m.current_alert ≢ 0
    → (update stealth now false now' m).1.current_alert
      ≡ after_timeout now' m.alert_start_time m.current_alert
unfolding update
update-after_timeout stealth now now' m on shown =
    let (same, led_same, start_same) = update_beeps_keeps stealth now m in
    update_led-after_timeout now' (update_beeps stealth now m).1 (led_same ∙ on)
      (λ e. shown (ap rank (sym same) ∙ e))
    ∙ ap₂ (after_timeout now') start_same same

-- With the buzzer enabled and not muted and stealth off, the beep half of an update in the same
-- millisecond as a new alert starts a tone.
pub alert_sounds :
    (started now : ℕ) (type : AlertType) (m : Manager)
    → now < 4294967296
    → rank type ≢ 0
    → m.buzzer_enabled ≡ true
    → m.is_muted ≡ false
    → (freq : ℕ) × (duration : ℕ) × ((update_beeps false now (alert started now type m)).0
        ≡ tone freq duration ∷ [])
unfolding update_beeps alert pattern_of start_pattern
alert_sounds started now alert_none m small some_alert on loud = absurd (some_alert refl)
alert_sounds started now alert_info m small some_alert on loud =
    (1000, 100, rw (on, loud) (ground (arith, small)))
alert_sounds started now alert_activity_medium m small some_alert on loud =
    (2000, 80, rw (on, loud) (ground (arith, small)))
alert_sounds started now alert_activity_high m small some_alert on loud =
    (2500, 100, rw (on, loud) (ground (arith, small)))
alert_sounds started now alert_activity_critical m small some_alert on loud =
    (3000, 150, rw (on, loud) (ground (arith, small)))
alert_sounds started now alert_battery_low m small some_alert on loud =
    (800, 200, rw (on, loud) (ground (arith, small)))
alert_sounds started now alert_mesh_alert m small some_alert on loud =
    (1500, 150, rw (on, loud) (ground (arith, small)))
