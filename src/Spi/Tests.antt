-- ===== src/Spi/Tests.antt =====
-- The bus at concrete inputs.
use sky_sweep.Prelude.{refl, true, [], ◌∷◌}
use sky_sweep.Spi.Bus.{cc1101, sd_card, Bus}
use sky_sweep.Spi.Line.{IsIdle}
use sky_sweep.Spi.Session.{
  begins, acquires, releases, transfers, transfers_bulk, run_all, run_all-IsIdle,
}

-- A bus before `begin`, whose devices answer 5.
abbrev pub new_bus : Bus
new_bus = record { device = λ t. 5; traffic = []; created = true; taken = 0; initialized = true }

run_all-IsIdle_example : IsIdle (
    run_all
      (begins true
        ∷ acquires true
        ∷ transfers cc1101 7
        ∷ transfers_bulk sd_card (1 ∷ 2 ∷ [])
        ∷ releases
        ∷ [])
      new_bus)
run_all-IsIdle_example =
    run_all-IsIdle
      (begins true
        ∷ acquires true
        ∷ transfers cc1101 7
        ∷ transfers_bulk sd_card (1 ∷ 2 ∷ [])
        ∷ releases
        ∷ [])
      new_bus refl
