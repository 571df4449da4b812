-- ===== src/Power/Tests.antt =====
-- The gauge at a concrete input: a charge of 4.25 percent.
use sky_sweep.Prelude.{◌≡◌, ◌↔◌, ◌<◌, refl, true, arith}
use sky_sweep.Power.Gauge.{Answer, Gauge, gauge_percent}
use sky_sweep.Power.Charge.{IsRead, IsNearest, value, update-Charge}
use sky_sweep.Power.Manager.{Manager, new_manager, is_balanced, update}

abbrev reading : Answer
reading = record { code = 0; received = 2; high = 4; low = 64 }

abbrev gauge : Gauge
gauge = record { vcell = reading; soc = reading }

abbrev monitored : Manager
monitored = record new_manager { battery_monitoring = true }

reading-IsRead : IsRead reading
reading-IsRead = record { code = refl; received = refl; high = omega arith; low = omega arith }

update-Charge_example :
    IsNearest (value reading) (update 20000 20001 (gauge_percent gauge) monitored).battery_percent
    × ((is_balanced (update 20000 20001 (gauge_percent gauge) monitored).current_mode ≡ true)
        ↔ (value reading < 1152))
update-Charge_example =
    update-Charge 20000 20001 gauge monitored reading-IsRead reading-IsRead refl refl (omega arith)
