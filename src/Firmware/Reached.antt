-- ===== src/Firmware/Reached.antt =====
-- The worlds that the firmware can reach from `setup`, and the rounds of its tasks among them.
use sky_sweep.Prelude.{
  ℕ, zero, suc, ◌+◌, ◌≤◌, ◌<◌, ◌≡◌, refl, Option, some, List, [], ◌∷◌, arith, length,
}
use sky_sweep.Spi.Bus.{Event}
use sky_sweep.Boot.Setup.{Found}
use sky_sweep.Boot.Configured.{IsNaming}
use sky_sweep.Monitor.Steady.{IsDocumented}
use sky_sweep.Monitor.Sweep.{receiver_count, Report, Reading}
use sky_sweep.Firmware.World.{Libraries, World, Effect, started}
use sky_sweep.Firmware.Scanning.{
  Carrying, Heard, Round, sense, carry_out, carry_out_all, scan_one, scan_from, scan_round,
}
use sky_sweep.Firmware.Duties.{Reporting, report_from, report_round}
use sky_sweep.Firmware.Sound.{Sound}
use sky_sweep.Firmware.Observing.{Continues, sense-Sound, judge-Continues}
use sky_sweep.Firmware.Attending.{report_index-Continues, scan_ids-Continues}
use sky_sweep.Firmware.Start.{started-Sound}
use sky_sweep.Firmware.Safety.{run-Continues, Reach-Sound}
use sky_sweep.Firmware.Calls.{
  Call, senses, judges, carries, tells, sweeps, manages, scans, reports, run, Fits, Reach, here,
  next,
}

-- A task's round returns, and its calls lead to where it ends.
pub record Rounds {K C F : Type 0} (lib : Libraries K C F) (w : World C F)
    (r : Option (List (Effect F) × World C F)) : Type 0 where
  pub effects : List (Effect F)
  pub last : World C F
  pub returns : r ≡ some (effects, last)
  pub reached : Reach lib w last
  pub sound : Sound last

module _ {K C F : Type 0} (lib : Libraries K C F) (documented : IsDocumented lib.sensing) where
  -- After setup, whatever it found, and any interleaving of the calls of the tasks, of loop and of
  -- the callbacks: the receivers are within their bands, nobody holds the bus, a running web server
  -- has a password of at least 8 characters, a network that can be brought up and a CPU and Wi-Fi
  -- that follow the power mode, the tables of peers and drones are well formed, the three shown
  -- readings are from 0 to 100 with a right flag, the sweep counter is below 10; and any call that
  -- fits returns to such a state. The generated network name has 1 to 31 characters, constrain and
  -- RadioLib do what they document, and a call that stores a reading fits if its receiver is one of
  -- the three and the reading is one that readReceiverRSSI answers in some state.
  pub running_safe :
      (f : Found) (chips : List Event → ℕ) (card : C) (interval : ℕ) (w : World C F)
      (c : Call K C F)
      → IsNaming f.ssid
      → Reach lib (started lib f chips card interval) w
      → Fits lib c
      → Sound w × Continues (run lib c w)
  running_safe f chips card interval w c naming r fits =
      let sound =
        Reach-Sound lib documented (started-Sound lib documented f chips card interval naming) r in
      (sound, run-Continues lib documented c w fits sound)

  Reach-trans : {s t u : World C F} → Reach lib s t → Reach lib t u → Reach lib s u
  Reach-trans p here = p
  Reach-trans p (next q c h e) = next (Reach-trans p q) c h e

  carried :
      (h : Carrying) (made : List Report) (s w : World C F)
      → Reach lib s w
      → Reach lib s (carry_out_all lib h made w).1
  unfolding carry_out_all run
  carried h [] s w r = r
  carried h (m ∷ ms) s w r = carried h ms s (carry_out lib h m w).1 (next r (carries h m) tt refl)

  scan_one-Rounds :
      (h : Heard F) (receiver : ℕ) (w : World C F)
      → receiver < receiver_count
      → Sound w
      → Rounds lib w (scan_one lib h receiver w)
  unfolding scan_one run
  scan_one-Rounds h receiver w fits s =
      let (rssi, u) = sense lib h.found receiver w in
      let (percent, sensed) = sense-Sound lib h.found receiver w documented s in
      let r : Reading = record {
        rssi = rssi;
        assessed = h.assessed;
        started = h.started;
        noted = h.noted;
      } in
      let j = judge-Continues lib receiver r u fits percent sensed in
      let judged : Reach lib w j.next =
        next {effects = []} (next here (senses h.found receiver) tt refl) (judges receiver r)
          (fits, record { found = h.found; receiver = receiver; world = w; answers = refl })
          (rw j.returns refl) in
      let reached = carried h.carrying j.answer w j.next judged in
      rw j.returns (record {
        effects = _;
        last = _;
        returns = refl;
        reached = reached;
        sound = Reach-Sound lib documented s reached;
      })

  scan_from-Rounds :
      (hs : List (Heard F)) (receiver : ℕ) (w : World C F)
      → receiver + length hs ≤ receiver_count
      → Sound w
      → Rounds lib w (scan_from lib receiver hs w)
  unfolding scan_from
  scan_from-Rounds [] receiver w fits s = record {
    effects = [];
    last = w;
    returns = refl;
    reached = here;
    sound = s;
  }
  scan_from-Rounds (h ∷ hs) receiver w fits s =
      let one = scan_one-Rounds h receiver w (omega arith) s in
      let more = scan_from-Rounds hs (suc receiver) one.last (omega arith) one.sound in
      rw (one.returns, more.returns)
        (record {
          effects = _;
          last = more.last;
          returns = refl;
          reached = Reach-trans one.reached more.reached;
          sound = more.sound;
        })

  -- From sound objects a round.
  scan_round-Rounds : (r : Round F) (w : World C F) → Sound w → Rounds lib w (scan_round lib r w)
  unfolding scan_round run
  scan_round-Rounds r w s =
      let heard = r.sub_ghz ∷ r.two_point_four ∷ r.five_point_eight ∷ [] in
      let o = scan_from-Rounds heard 0 w (omega arith) s in
      let told = next o.reached (tells r.clients) tt refl in
      let swept = next told (sweeps r.obtained) tt refl in
      let reached = next swept (manages r.tested r.noted r.gauge) tt refl in
      rw o.returns (record {
        effects = _;
        last = _;
        returns = refl;
        reached = reached;
        sound = Reach-Sound lib documented s reached;
      })

  report_from-Rounds :
      (h : ℕ → Reporting) (n index : ℕ) (w : World C F)
      → Sound w
      → Rounds lib w (report_from lib h n index w)
  unfolding report_from run
  report_from-Rounds h zero index w s = record {
    effects = [];
    last = w;
    returns = refl;
    reached = here;
    sound = s;
  }
  report_from-Rounds h (suc n) index w s =
      let one = report_index-Continues lib (h index) index w s in
      let more = report_from-Rounds h n (suc index) one.next one.sound in
      let first = next here (reports (h index) index) tt one.returns in
      rw (one.returns, more.returns)
        (record {
          effects = _;
          last = more.last;
          returns = refl;
          reached = Reach-trans first more.reached;
          sound = more.sound;
        })

  -- From sound objects a round of the Remote ID task.
  report_round-Rounds :
      (tested noted cleaned : ℕ) (h : ℕ → Reporting) (w : World C F)
      → Sound w
      → Rounds lib w (report_round lib tested noted cleaned h w)
  unfolding report_round run
  report_round-Rounds tested noted cleaned h w s =
      let c = scan_ids-Continues tested noted cleaned w s in
      let more = report_from-Rounds h c.next.detector.drone_count 0 c.next c.sound in
      let first = next here (scans tested noted cleaned) tt c.returns in
      rw (c.returns, more.returns)
        (record {
          effects = _;
          last = more.last;
          returns = refl;
          reached = Reach-trans first more.reached;
          sound = more.sound;
        })

  -- From a state as in running_safe, a round of the RF scanning task and one of the Remote ID task
  -- return, and where they end is reached by the calls of such interleavings and is such a state
  -- again, if constrain and RadioLib do what they document.
  pub tasks-Rounds :
      (r : Round F) (tested noted cleaned : ℕ) (h : ℕ → Reporting) (w : World C F)
      → Sound w
      → Rounds lib w (scan_round lib r w) × Rounds lib w (report_round lib tested noted cleaned h w)
  tasks-Rounds r tested noted cleaned h w s =
      (scan_round-Rounds r w s, report_round-Rounds tested noted cleaned h w s)
