-- ===== src/Power/Mode.antt =====
-- The CPU and the Wi-Fi follow the mode.
use sky_sweep.Prelude.{
  ℕ, ◌≡◌, refl, inl, inr, ◌&&◌, not, Bool-cases, Option, none, some, ltb, sub32, if◌then◌else◌,
}
use sky_sweep.Power.Manager.{
  PowerMode, power_full, power_balanced, is_balanced, Manager, set_cpu_frequency,
  set_wifi_power_save, apply_wifi_policy, change_mode, renew_mode, set_mode_from, set_mode,
  read_battery, is_battery_critical, update,
}

-- The frequency and the Wi-Fi power save are those of the mode.
pub record Follows (p : Manager) : Type 0 where
  pub cpu : p.cpu_mhz ≡ (if is_balanced p.current_mode then 160 else 240)
  pub wifi : p.wifi_power_save ≡ is_balanced p.current_mode

set_mode_from-Follows :
    (old mode : PowerMode) (p : Manager)
    → p.current_mode ≡ old
    → Follows (set_mode_from old mode p) × ((set_mode_from old mode p).current_mode ≡ mode)
unfolding set_mode_from renew_mode change_mode apply_wifi_policy set_wifi_power_save
    set_cpu_frequency
set_mode_from-Follows power_full power_full p e = (record { cpu = rw e; wifi = refl }, e)
set_mode_from-Follows power_balanced power_balanced p e = (record { cpu = rw e; wifi = refl }, e)
set_mode_from-Follows power_full power_balanced p e = (record { cpu = refl; wifi = refl }, refl)
set_mode_from-Follows power_balanced power_full p e = (record { cpu = refl; wifi = refl }, refl)

-- From any state, setMode to either mode leaves the manager in that mode, with the CPU at 160 MHz
-- and the Wi-Fi power save on in the balanced mode, and at 240 MHz and off in the full mode.
pub set_mode-Follows :
    (mode : PowerMode) (p : Manager)
    → Follows (set_mode mode p) × ((set_mode mode p).current_mode ≡ mode)
unfolding set_mode
set_mode-Follows mode p = set_mode_from-Follows p.current_mode mode p refl

pub read_battery-Follows :
    (percent : Option ℕ) (p : Manager) → Follows p → Follows (read_battery percent p)
unfolding read_battery
read_battery-Follows none p s = s
read_battery-Follows (some n) p s = elim (Bool-cases p.battery_monitoring) [
  | inl on ↦ simp on (record { cpu = s.cpu; wifi = s.wifi })
  | inr off ↦ simp off s
]

pub update-Follows :
    (tested noted : ℕ) (percent : Option ℕ) (p : Manager)
    → Follows p
    → Follows (update tested noted percent p)
unfolding update
update-Follows tested noted percent p s =
    let q = record (read_battery percent p) { last_battery_read = noted } in
    let kept = read_battery-Follows percent p s in
    elim (Bool-cases (ltb 10000 (sub32 tested p.last_battery_read))) [
      | inr early ↦ rw early s
      | inl late ↦ elim (Bool-cases (is_battery_critical q && not (is_balanced q.current_mode))) [
        | inl critical ↦ rw (late, critical) ((set_mode-Follows power_balanced q).0)
        | inr enough ↦ rw (late, enough) (record { cpu = kept.cpu; wifi = kept.wifi })
      ]
    ]
