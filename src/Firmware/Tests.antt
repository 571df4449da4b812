-- ===== src/Firmware/Tests.antt =====
-- The running firmware at concrete inputs.
use sky_sweep.Prelude.{ℕ, ◌+◌, ◌≡◌, refl, true, false, some, List, [], ◌∷◌}
use sky_sweep.Prelude.Int.{pos_part}
use sky_sweep.Spi.Bus.{Event}
use sky_sweep.Logger.Card.{File}
use sky_sweep.Logger.Tests.{example_format}
use sky_sweep.Gnss.Tests.{whole}
use sky_sweep.Web.Tests.{services}
use sky_sweep.Boot.Tests.{found, found-IsNaming}
use sky_sweep.Power.Gauge.{Answer}
use sky_sweep.Monitor.RoundTests.{library, library-IsDocumented, found as hears}
use sky_sweep.Firmware.World.{Libraries, World, Effect, started}
use sky_sweep.Firmware.Scanning.{Carrying, Heard, Round, scan_round}
use sky_sweep.Firmware.Duties.{Reporting, refresh_display, report_round}
use sky_sweep.Firmware.Calls.{draws, drives, Reach, here, next, run}
use sky_sweep.Firmware.Sound.{Sound}
use sky_sweep.Firmware.Observing.{Continues}
use sky_sweep.Firmware.Start.{started-Sound}
use sky_sweep.Firmware.Reached.{Rounds, running_safe, tasks-Rounds}
use sky_sweep.Firmware.Messages.{frames}
use sky_sweep.Firmware.Private.{Agrees, scan_round-frames}
use sky_sweep.Firmware.Stealth.{saves_after, drawn, IsDark, refresh_display-Stealth}

abbrev libraries : Libraries (List ℕ) (List File) ℕ
libraries = record {
  services = services;
  format = example_format;
  sensing = library;
  texts = record {
    row = λ name rssi. name;
    activity = λ level. level;
    satellites = λ n. n ∷ [];
    map_range = λ x a b c d. x;
  };
  floats = whole;
  of_count = λ n. n;
  of_degrees = pos_part;
  of_altitude = pos_part;
}

abbrev chips : List Event → ℕ
chips t = 5

abbrev first : World (List File) ℕ
first = started libraries found chips [] 2000

-- The display is drawn, and then the alerts are driven.
abbrev drawn_once : World (List File) ℕ
drawn_once = (refresh_display libraries 3000 first).1

path : Reach libraries first drawn_once
unfolding run
path = next here (draws 3000) tt refl

running_safe_example : Sound drawn_once × Continues (run libraries (drives 3100 3101) drawn_once)
running_safe_example =
    running_safe libraries library-IsDocumented found chips [] 2000 drawn_once (drives 3100 3101)
      found-IsNaming path tt

abbrev carrying : Carrying
carrying = record {
  espnow_sent = true;
  stamped = 4000;
  clients = 1;
  obtained = true;
  noted = 4001;
  logged = 4002;
}

abbrev heard : Heard ℕ
heard = record { found = hears; assessed = 4000; started = 4000; noted = 4000; carrying = carrying }

abbrev answer : ℕ → Answer
answer high = record { code = 0; received = 2; high = high; low = 0 }

abbrev round : Round ℕ
round = record {
  sub_ghz = heard;
  two_point_four = heard;
  five_point_eight = heard;
  clients = 1;
  obtained = true;
  tested = 20000;
  noted = 20001;
  gauge = record { vcell = answer 200; soc = answer 90 };
}

abbrev reporting : ℕ → Reporting
reporting i = record { clients = 1; obtained = true; noted = 5000 + i; logged = 5001 + i }

tasks-Rounds_example :
    Rounds libraries first (scan_round libraries round first)
    × Rounds libraries first (report_round libraries 9000 9001 9002 reporting first)
tasks-Rounds_example =
    tasks-Rounds libraries library-IsDocumented round 9000 9001 9002 reporting first
      (started-Sound libraries library-IsDocumented found chips [] 2000 found-IsNaming)

-- Another position changes nothing of what the nodes are told.
abbrev elsewhere : World (List File) ℕ
elsewhere = record first {
  gnss = record (first.gnss) {
    current_data = record {
      location = record {
        latitude = 7;
        longitude = 8;
        altitude = 9;
        speed = 1;
        course = 2;
        hdop = 3;
        satellites = 6;
      };
      is_valid = true;
      last_update = 3000;
    };
  };
}

agree : Agrees first elsewhere
unfolding started
agree = record { drivers = refl; mesh = refl; thresholds = refl; three = refl; three' = refl }

scan_round-frames_example :
    (p : List (Effect ℕ) × World (List File) ℕ) × (q : List (Effect ℕ) × World (List File) ℕ)
    × (scan_round libraries round first ≡ some p)
    × (scan_round libraries round elsewhere ≡ some q)
    × (frames p.0 ≡ frames q.0)
scan_round-frames_example = scan_round-frames libraries round first elsewhere agree

refresh_display-Stealth_example :
    (saves_after (refresh_display libraries 3000 first).0 false
      ≡ first.device.app.config.cfg.stealth_mode)
    × ((refresh_display libraries 3000 first).1.previous_stealth
        ≡ first.device.app.config.cfg.stealth_mode)
    × (first.device.app.config.cfg.stealth_mode ≡ true
        → IsDark (drawn (refresh_display libraries 3000 first).0))
unfolding started
refresh_display-Stealth_example = refresh_display-Stealth libraries 3000 false first refl
