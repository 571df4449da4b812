-- ===== src/Power/Charge.antt =====
-- What a reading of the gauge means, and when it changes the mode.
use sky_sweep.Prelude.{
  ℕ, ◌+◌, ◌*◌, ◌≤◌, ◌<◌, ◌≡◌, ◌↔◌, refl, ap, ◌∙◌, sym, inl, inr, true, not, ◌&&◌, false≢true,
  Bool-cases, some, min, arith, ltb, ltb-true, ltb→lt, sub32, u16, bit_or, if◌then◌else◌,
}
use sky_sweep.Prelude.Bits.{bit_or-shifted}
use sky_sweep.Power.Gauge.{
  Answer, Gauge, read_max17048_register, charge_percent, soc_percent, read_gauge_from,
  gauge_percent,
}
use sky_sweep.Power.Manager.{
  power_full, power_balanced, PowerMode, is_balanced, Manager, set_cpu_frequency,
  set_wifi_power_save, apply_wifi_policy, change_mode, renew_mode, set_mode_from, read_battery,
  is_battery_critical, set_mode, update,
}
use sky_sweep.Power.Mode.{set_mode-Follows}

-- A register that was read: the transfers succeed, and the bytes are bytes.
pub record IsRead (a : Answer) : Type 0 where
  pub code : a.code ≡ 0
  pub received : a.received ≡ 2
  pub high : a.high < 256
  pub low : a.low < 256

abbrev pub value : Answer → ℕ
value a = a.high * 256 + a.low

read_max17048_register-value : (a : Answer) → IsRead a → read_max17048_register a ≡ some (value a)
unfolding read_max17048_register
read_max17048_register-value a r =
    let joined : bit_or a.low (u16 (a.high * 256)) ≡ a.low + a.high * 256 =
      ap (bit_or a.low) (omega (arith, r.high)) ∙ bit_or-shifted 8 a.high a.low r.low in
    rw (r.code, r.received, joined) (ap some (omega (arith, r.high, r.low)))

-- The percentage is the charge to the nearest whole one, up to 100.
pub record IsNearest (raw percent : ℕ) : Type 0 where
  pub below : 256 * percent ≤ min raw 25600 + 128
  pub above : min raw 25600 + 128 < 256 * percent + 256
  pub limit : percent ≤ 100

charge_percent-IsNearest : (raw : ℕ) → IsNearest raw (charge_percent raw)
unfolding charge_percent
charge_percent-IsNearest raw = record {
  below = omega arith;
  above = omega arith;
  limit = omega arith;
}

set_mode_from-percent :
    (old mode : PowerMode) (p : Manager)
    → (set_mode_from old mode p).battery_percent ≡ p.battery_percent
unfolding set_mode_from renew_mode change_mode apply_wifi_policy set_wifi_power_save
    set_cpu_frequency
set_mode_from-percent power_full power_full p = refl
set_mode_from-percent power_balanced power_balanced p = refl
set_mode_from-percent power_full power_balanced p = refl
set_mode_from-percent power_balanced power_full p = refl

set_mode-percent :
    (mode : PowerMode) (p : Manager) → (set_mode mode p).battery_percent ≡ p.battery_percent
unfolding set_mode
set_mode-percent mode p = set_mode_from-percent p.current_mode mode p

-- What the reading of a percentage leads to in full power mode.
abbrev react : Manager → Manager
react q =
    if is_battery_critical q && not (is_balanced q.current_mode)
    then set_mode power_balanced q
    else q

react-percent : (q : Manager) → (react q).battery_percent ≡ q.battery_percent
react-percent q = elim (Bool-cases (is_battery_critical q && not (is_balanced q.current_mode))) [
  | inl critical ↦ simp critical (set_mode-percent power_balanced q)
  | inr enough ↦ simp enough refl
]

react-mode :
    (q : Manager)
    → q.current_mode ≡ power_full
    → (is_balanced (react q).current_mode ≡ true) ↔ (q.battery_percent < 5)
unfolding is_battery_critical
react-mode q full = elim (Bool-cases (ltb q.battery_percent 5)) [
  | inl critical ↦
      let changed = (set_mode-Follows power_balanced q).1 in
      simp (critical, full, changed) (λ h. ltb→lt _ _ critical, λ h. refl)
  | inr enough ↦
      simp (enough, full)
        (λ h. absurd (false≢true h), λ h. absurd (false≢true (sym enough ∙ ltb-true _ _ h)))
]

-- The new state after a round of `update` that reads the battery.
update-react :
    (tested noted : ℕ) (g : Gauge) (p : Manager)
    → IsRead g.vcell
    → IsRead g.soc
    → p.battery_monitoring ≡ true
    → 10000 < sub32 tested p.last_battery_read
    → update tested noted (gauge_percent g) p
      ≡ react
          (record p { battery_percent = charge_percent (value g.soc); last_battery_read = noted })
unfolding update gauge_percent read_gauge_from soc_percent read_battery
update-react tested noted g p voltage charge on due =
    simp
      (
        read_max17048_register-value g.vcell voltage,
        read_max17048_register-value g.soc charge,
        ltb-true _ _ due,
        on,
      )
      refl

-- In full power mode with a monitored battery, an update more than 10 seconds after the last
-- reading whose two register accesses succeed sets the percentage to the charge (in 1/256 percent,
-- up to 100) rounded to the nearest whole, ties upwards, and ends in the balanced mode exactly if
-- the charge is below 1152 (4.5 percent).
pub update-Charge :
    (tested noted : ℕ) (g : Gauge) (p : Manager)
    → IsRead g.vcell
    → IsRead g.soc
    → p.battery_monitoring ≡ true
    → p.current_mode ≡ power_full
    → 10000 < sub32 tested p.last_battery_read
    → IsNearest (value g.soc) (update tested noted (gauge_percent g) p).battery_percent
      × ((is_balanced (update tested noted (gauge_percent g) p).current_mode ≡ true)
          ↔ (value g.soc < 1152))
unfolding charge_percent
update-Charge tested noted g p voltage charge on full due =
    let q : Manager = record p {
      battery_percent = charge_percent (value g.soc);
      last_battery_read = noted;
    } in
    let e = update-react tested noted g p voltage charge on due in
    let balanced = react-mode q full in
    rw (e, react-percent q)
      (
        charge_percent-IsNearest (value g.soc),
        (λ h. omega (arith, balanced.0 h), λ h. balanced.1 (omega arith)),
      )
