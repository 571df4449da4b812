-- ===== src/Power/Manager.antt =====
-- The mode machine of `PowerManager`. What the last calls set the CPU frequency and the Wi-Fi power
-- save to is part of the record; the percentage that a reading of the gauge gives, if it succeeds,
-- and the readings of the clock are arguments.
use sky_sweep.Prelude.{
  ℕ, Bool, true, false, not, ◌&&◌, Option, none, some, if◌then◌else◌, ◌==◌, ltb, sub32,
}

-- `PowerMode`
pub data PowerMode : Type 0 where
  power_full power_balanced : PowerMode

abbrev pub is_balanced : PowerMode → Bool
is_balanced power_full = false
is_balanced power_balanced = true

pub record Manager : Type 0 where
  pub current_mode : PowerMode
  pub battery_percent : ℕ
  pub battery_monitoring : Bool
  pub last_battery_read : ℕ
  pub cpu_mhz : ℕ
  pub wifi_power_save : Bool

unfoldable pub set_cpu_frequency : ℕ → Manager → Manager
set_cpu_frequency mhz p = record p {
  cpu_mhz = if mhz == 160 then mhz else if mhz == 240 then mhz else 240;
}

unfoldable pub set_wifi_power_save : Bool → Manager → Manager
set_wifi_power_save enable p = record p { wifi_power_save = enable }

unfoldable pub apply_wifi_policy : Manager → Manager
apply_wifi_policy p = set_wifi_power_save (is_balanced p.current_mode) p

-- The switch of `setMode`, for a new mode.
unfoldable pub change_mode : PowerMode → Manager → Manager
change_mode power_full p =
    set_wifi_power_save false (set_cpu_frequency 240 (record p { current_mode = power_full }))
change_mode power_balanced p =
    set_wifi_power_save true (set_cpu_frequency 160 (record p { current_mode = power_balanced }))

-- `setMode(mode)` in that mode already.
unfoldable pub renew_mode : Manager → Manager
renew_mode p =
    apply_wifi_policy (set_cpu_frequency (if is_balanced p.current_mode then 160 else 240) p)

unfoldable pub set_mode_from : PowerMode → PowerMode → Manager → Manager
set_mode_from power_full power_full p = renew_mode p
set_mode_from power_balanced power_balanced p = renew_mode p
set_mode_from power_full power_balanced p = change_mode power_balanced p
set_mode_from power_balanced power_full p = change_mode power_full p

unfoldable pub set_mode : PowerMode → Manager → Manager
set_mode mode p = set_mode_from p.current_mode mode p

-- The effect of `getBatteryVoltage` on the percentage.
unfoldable pub read_battery : Option ℕ → Manager → Manager
read_battery none p = p
read_battery (some percent) p =
    if p.battery_monitoring then record p { battery_percent = percent } else p

-- The constructor, on a processor that starts at 240 MHz without the power save.
abbrev pub new_manager : Manager
new_manager = record {
  current_mode = power_full;
  battery_percent = 100;
  battery_monitoring = false;
  last_battery_read = 0;
  cpu_mhz = 240;
  wifi_power_save = false;
}

-- `begin`, for whether the gauge answers, and its first reading.
unfoldable pub begin : Bool → Option ℕ → Manager → Manager
begin gauge percent p =
    set_cpu_frequency 240 (read_battery percent (record p { battery_monitoring = gauge }))

unfoldable pub is_battery_low : Manager → Bool
is_battery_low p = ltb p.battery_percent 15

unfoldable pub is_battery_critical : Manager → Bool
is_battery_critical p = ltb p.battery_percent 5

unfoldable pub update : ℕ → ℕ → Option ℕ → Manager → Manager
update tested noted percent p =
    if ltb 10000 (sub32 tested p.last_battery_read)
    then (let q = record (read_battery percent p) { last_battery_read = noted } in
        if is_battery_critical q && not (is_balanced q.current_mode)
        then set_mode power_balanced q
        else q)
    else p
