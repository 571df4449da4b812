-- ===== src/Cc1101/Tests.antt =====
-- The sub-GHz receiver at concrete inputs.
use sky_sweep.Prelude.{◌≡◌, refl, [], ◌∷◌, arith, replicate}
use sky_sweep.Prelude.Int.{pos, negsuc}
use sky_sweep.Spi.Tests.{new_bus}
use sky_sweep.Cc1101.Radio.{Radio, new_radio, rssi_dbm, cast_int8, receive_data}
use sky_sweep.Cc1101.Scan.{spectrum_scan}
use sky_sweep.Cc1101.Safety.{IsSafe}
use sky_sweep.Cc1101.Receive.{Receives, receive_data-Receives}
use sky_sweep.Cc1101.Spectrum.{grid, Scanned, spectrum_scan-grid}
use sky_sweep.Cc1101.Session.{begins, sets_band, receives, sweeps, Runs, run_all, run_all-Runs}

abbrev example_radio : Radio
example_radio = new_radio new_bus

example-IsSafe : IsSafe example_radio
example-IsSafe = record { idle = refl; above = omega arith; below = omega arith }

run_all-Runs_example : Runs example_radio (
    run_all
      (begins
        ∷ sets_band 1
        ∷ receives (replicate 4 0) 4
        ∷ sweeps 860000000 861000000 500000 (replicate 3 (pos 0)) 3
        ∷ [])
      example_radio)
run_all-Runs_example =
    run_all-Runs
      (begins
        ∷ sets_band 1
        ∷ receives (replicate 4 0) 4
        ∷ sweeps 860000000 861000000 500000 (replicate 3 (pos 0)) 3
        ∷ [])
      example_radio (tt, (tt, ((omega arith, omega arith), ((omega arith, omega arith), tt))))
      example-IsSafe

receive_data-Receives_example : Receives (replicate 6 0) 6 (receive_data (replicate 6 0) 6 new_bus)
receive_data-Receives_example =
    receive_data-Receives (replicate 6 0) 6 new_bus (omega arith) (omega arith) refl

spectrum_scan-grid_example :
    Scanned example_radio
      (grid 4 860000000 861000000 500000)
      (replicate 4 (pos 0))
      (spectrum_scan 860000000 861000000 500000 (replicate 4 (pos 0)) 4 example_radio)
spectrum_scan-grid_example =
    spectrum_scan-grid 860000000 861000000 500000 (replicate 4 (pos 0)) 4 example_radio
      (omega arith) (omega arith) (omega arith) (omega arith) (omega arith) (omega arith)
      (omega arith) example-IsSafe

-- A raw reading of -138 dBm is out of the range of int8_t.
overflow : cast_int8 (rssi_dbm 128) ≡ pos 118
unfolding rssi_dbm cast_int8
overflow = refl

weak : cast_int8 (rssi_dbm 147) ≡ negsuc 127
unfolding rssi_dbm cast_int8
weak = refl
