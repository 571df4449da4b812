-- ===== src/Alert/Manager.antt =====
-- `AlertManager`. What it does to the pins is a list of actions; a reading of `millis()` and the
-- stealth setting of the configuration are arguments. The board has a
-- vibration motor (PIN_VIBRATION), so its lines are compiled.
use sky_sweep.Prelude.{
  ℕ, zero, suc, ◌+◌, ◌-◌, Bool, true, false, not, ◌&&◌, ◌||◌, List, [], ◌∷◌, ◌++◌, if◌then◌else◌,
  ◌==◌, ltb, leb, u32, sub32,
}

-- `AlertType`
pub data AlertType : Type 0 where
  alert_none alert_info alert_activity_medium alert_activity_high : AlertType
  alert_activity_critical alert_battery_low alert_mesh_alert : AlertType

-- The number of the enumerator.
abbrev pub rank : AlertType → ℕ
rank alert_none = 0
rank alert_info = 1
rank alert_activity_medium = 2
rank alert_activity_high = 3
rank alert_activity_critical = 4
rank alert_battery_low = 5
rank alert_mesh_alert = 6

-- What happens on the buzzer, LED and vibration pins.
pub data Action : Type 0 where
  tone : ℕ → ℕ → Action
  no_tone : Action
  led : Bool → Action
  vibrate : Bool → Action
  buzzer_low : Action
  wait : ℕ → Action

-- The fields of `AlertManager`.
pub record Manager : Type 0 where
  pub buzzer_enabled : Bool
  pub led_enabled : Bool
  pub is_muted : Bool
  pub current_alert : AlertType
  pub alert_start_time : ℕ
  pub last_toggle : ℕ
  pub led_state : Bool
  pub tone_end_time : ℕ
  pub beep_count : ℕ
  pub beeps_remaining : ℕ
  pub beep_freq : ℕ
  pub beep_duration_ms : ℕ
  pub beep_gap_ms : ℕ

-- The constructor.
abbrev pub new_manager : Manager
new_manager = record {
  buzzer_enabled = false;
  led_enabled = false;
  is_muted = false;
  current_alert = alert_none;
  alert_start_time = 0;
  last_toggle = 0;
  led_state = false;
  tone_end_time = 0;
  beep_count = 0;
  beeps_remaining = 0;
  beep_freq = 0;
  beep_duration_ms = 0;
  beep_gap_ms = 0;
}

unfoldable pub start_pattern : ℕ → Manager → ℕ → ℕ → ℕ → ℕ → Manager
start_pattern now m freq count dur_ms gap_ms = record m {
  beep_freq = freq;
  beep_count = count;
  beeps_remaining = count;
  beep_duration_ms = dur_ms;
  beep_gap_ms = gap_ms;
  tone_end_time = 0;
  last_toggle = sub32 now gap_ms;
}

-- The switch of `alert`; `now` is the reading of the clock in `startPattern`.
unfoldable pub pattern_of : ℕ → Manager → AlertType → Manager
unfolding start_pattern
pattern_of now m alert_none = m
pattern_of now m alert_info = start_pattern now m 1000 1 100 0
pattern_of now m alert_activity_medium = start_pattern now m 2000 2 80 80
pattern_of now m alert_activity_high = start_pattern now m 2500 3 100 50
pattern_of now m alert_activity_critical = start_pattern now m 3000 5 150 50
pattern_of now m alert_battery_low = start_pattern now m 800 3 200 300
pattern_of now m alert_mesh_alert = start_pattern now m 1500 2 150 100

unfoldable pub alert : ℕ → ℕ → AlertType → Manager → Manager
unfolding pattern_of
alert started now type m =
    pattern_of now (record m { current_alert = type; alert_start_time = started }) type

unfoldable pub clear_alert : Manager → List Action × Manager
clear_alert m =
    let cleared = record m { current_alert = alert_none; beeps_remaining = 0; tone_end_time = 0 } in
    (
      (if m.buzzer_enabled then no_tone ∷ [] else [])
          ++ (vibrate false ∷ (if m.led_enabled then led false ∷ [] else [])),
      if m.led_enabled then record cleared { led_state = false } else cleared,
    )

-- A tone has ended, and the next gap begins if beeps are left.
unfoldable pub end_tone : ℕ → Manager → Manager
end_tone now m = record m {
  tone_end_time = 0;
  beeps_remaining = m.beeps_remaining - 1;
  last_toggle = if ltb 0 (m.beeps_remaining - 1) then now else m.last_toggle;
}

-- The first half of `update`: the beep pattern.
unfoldable pub update_beeps : Bool → ℕ → Manager → List Action × Manager
update_beeps stealth now m =
    if ltb 0 m.beeps_remaining
    then (if ltb 0 m.tone_end_time && leb m.tone_end_time now
        then (no_tone ∷ vibrate false ∷ [], end_tone now m)
        else if m.tone_end_time == 0 && leb m.beep_gap_ms (sub32 now m.last_toggle)
        then (
          if stealth
              then vibrate true ∷ []
              else if m.buzzer_enabled && not m.is_muted
              then tone m.beep_freq m.beep_duration_ms ∷ []
              else [],
          record m { tone_end_time = u32 (now + m.beep_duration_ms) },
        )
        else ([], m))
    else ([], m)

unfoldable pub blink_rate : AlertType → ℕ
blink_rate alert_none = 500
blink_rate alert_info = 500
blink_rate alert_activity_medium = 250
blink_rate alert_activity_high = 100
blink_rate alert_activity_critical = 50
blink_rate alert_battery_low = 1000
blink_rate alert_mesh_alert = 300

unfoldable pub blink : ℕ → Manager → List Action × Manager
blink now m =
    if leb (blink_rate m.current_alert) (sub32 now m.last_toggle)
    then (led (not m.led_state) ∷ [], record m { led_state = not m.led_state; last_toggle = now })
    else ([], m)

-- The last `if` of `update`.
unfoldable pub auto_clear : ℕ → List Action × Manager → List Action × Manager
auto_clear now (actions, m) =
    if not (rank m.current_alert == rank alert_activity_critical)
      && ltb 10000 (sub32 now m.alert_start_time)
    then (let (more, cleared) = clear_alert m in (actions ++ more, cleared))
    else (actions, m)

-- The second half of `update`: the LED, and the end of the alert.
unfoldable pub update_led : Bool → ℕ → Manager → List Action × Manager
update_led stealth now m =
    if m.led_enabled && (not stealth && not (rank m.current_alert == 0))
    then auto_clear now (blink now m)
    else ([], m)

-- `update`; the two halves read the clock and the configuration each for itself.
unfoldable pub update : Bool → ℕ → Bool → ℕ → Manager → List Action × Manager
update stealth now stealth' now' m =
    let (first, n) = update_beeps stealth now m in
    let (second, o) = update_led stealth' now' n in (first ++ second, o)

unfoldable pub play_tone : Bool → ℕ → ℕ → Manager → List Action
play_tone stealth freq duration_ms m =
    if stealth
    then vibrate true ∷ wait duration_ms ∷ vibrate false ∷ []
    else if not m.buzzer_enabled || m.is_muted
    then []
    else tone freq duration_ms ∷ []

-- The loops of `beep` from beep `i`, with the rounds that are left.
unfoldable pub stealth_beeps : ℕ → ℕ → ℕ → List Action
stealth_beeps zero i count = []
stealth_beeps (suc n) i count =
    vibrate true
    ∷ wait 80
    ∷ vibrate false
    ∷ ((if ltb (i + 1) count then wait 120 ∷ [] else []) ++ stealth_beeps n (suc i) count)

unfoldable pub loud_beeps : ℕ → ℕ → List Action
loud_beeps zero freq = no_tone ∷ []
loud_beeps (suc n) freq = tone freq 80 ∷ wait 120 ∷ loud_beeps n freq

unfoldable pub beep : Bool → ℕ → ℕ → Manager → List Action
beep stealth count freq m =
    if stealth
    then stealth_beeps count 0 count
    else if not m.buzzer_enabled || m.is_muted
    then []
    else loud_beeps count freq

unfoldable pub begin : Bool → Bool → Bool → Manager → List Action × Manager
unfolding play_tone
begin stealth enable_buzzer enable_led m =
    let n = record m { buzzer_enabled = enable_buzzer; led_enabled = enable_led } in
    (
      (if enable_buzzer then buzzer_low ∷ [] else [])
          ++ ((if enable_led then led false ∷ [] else [])
              ++ (vibrate false
                  ∷ (if enable_buzzer && not m.is_muted
                      then play_tone stealth 1000 50 n ++ (wait 50 ∷ play_tone stealth 2000 50 n)
                      else []))),
      n,
    )
