-- ===== src/Firmware/Calls.antt =====
-- Any interleaving of the tasks, the loop and the callbacks, at the calls that they make.
use sky_sweep.Prelude.{ℕ, ◌<◌, ◌≡◌, Bool, Option, some, List, [], ◌>>=◌, Bytes}
use sky_sweep.Prelude.Int.{ℤ}
use sky_sweep.Power.Gauge.{Gauge}
use sky_sweep.Mesh.Send.{Clock}
use sky_sweep.Web.Server.{Observed}
use sky_sweep.Web.Routes.{Route, Request, Answers}
use sky_sweep.Gnss.Receiver.{Location}
use sky_sweep.Monitor.Receivers.{Found}
use sky_sweep.Monitor.Sweep.{receiver_count, Report, Reading}
use sky_sweep.Firmware.World.{Libraries, World, Effect}
use sky_sweep.Firmware.Scanning.{
  Carrying, sense, judge, carry_out, tell_activity, sweep_bands, manage_power,
}
use sky_sweep.Firmware.Duties.{
  Reporting, refresh_display, serve_request, report_index, scan_ids, refresh_dashboards, poll_gnss,
  drive_alerts, keep_mesh, hear_message, note_sent, hear_advertisement,
}

-- A call with what it finds: six of the scanning task, and those of the display, the web server,
-- the network, the Remote ID task, the GNSS task, the loop, ESP-NOW and the Bluetooth scanner.
pub data Call (K C F : Type 0) : Type 0 where
  senses : Found F → ℕ → Call K C F
  judges : ℕ → Reading → Call K C F
  carries : Carrying → Report → Call K C F
  tells : ℕ → Call K C F
  sweeps : Bool → Call K C F
  manages : ℕ → ℕ → Gauge → Call K C F
  draws : ℕ → Call K C F
  refreshes : Observed F → Call K C F
  serves : Answers C → Route → Request K → Call K C F
  scans : ℕ → ℕ → ℕ → Call K C F
  reports : Reporting → ℕ → Call K C F
  polls : ℕ → ℕ → ℕ → Option (Location F) → Call K C F
  drives : ℕ → ℕ → Call K C F
  keeps : Bool → Clock → ℕ → ℕ → Gauge → Call K C F
  hears : ℕ → ℕ → Bytes → Bytes → Call K C F
  sent : Bool → Call K C F
  advertises : ℕ → ℤ → Bool → Option Bytes → Call K C F

module _ {K C F : Type 0} where
  unfoldable pub run :
      Libraries K C F → Call K C F → World C F → Option (List (Effect F) × World C F)
  run lib (senses f receiver) w = some ([], (sense lib f receiver w).1)
  run lib (judges receiver r) w = judge lib receiver r w >>= λ (made, u). some ([], u)
  run lib (carries h report) w = some (carry_out lib h report w)
  run lib (tells clients) w = some (tell_activity clients w, w)
  run lib (sweeps obtained) w = some ([], sweep_bands obtained w)
  run lib (manages tested noted gauge) w = some ([], manage_power tested noted gauge w)
  run lib (draws now) w = some (refresh_display lib now w)
  run lib (refreshes o) w = some (refresh_dashboards o w)
  run lib (serves ans route r) w = some ([], serve_request lib ans route r w)
  run lib (scans tested noted cleaned) w = scan_ids tested noted cleaned w
  run lib (reports h index) w = report_index lib h index w
  run lib (polls tested taken noted location) w = some ([], poll_gnss tested taken noted location w)
  run lib (drives now now') w = some (drive_alerts now now' w)
  run lib (keeps sent_ok clock battery modules gauge) w =
      keep_mesh sent_ok clock battery modules gauge w
  run lib (hears added now mac bytes) w = hear_message added now mac bytes w >>= λ u. some ([], u)
  run lib (sent success) w = some ([], note_sent success w)
  run lib (advertises now rssi remote_id payload) w =
      hear_advertisement now rssi remote_id payload w >>= λ u. some ([], u)

  -- A reading that `readReceiverRSSI` answers for some receiver, in some state of the objects.
  pub record IsSensed (lib : Libraries K C F) (rssi : ℤ) : Type 0 where
    pub found : Found F
    pub receiver : ℕ
    pub world : World C F
    pub answers : (sense lib found receiver world).0 ≡ rssi

  -- The loop over the receivers stays within the array, and stores what was read.
  abbrev pub Fits : Libraries K C F → Call K C F → Type 0
  Fits lib (judges receiver r) = (receiver < receiver_count) × IsSensed lib r.rssi
  Fits lib (senses f receiver) = Unit
  Fits lib (carries h report) = Unit
  Fits lib (tells clients) = Unit
  Fits lib (sweeps obtained) = Unit
  Fits lib (manages tested noted gauge) = Unit
  Fits lib (draws now) = Unit
  Fits lib (refreshes o) = Unit
  Fits lib (serves ans route r) = Unit
  Fits lib (scans tested noted cleaned) = Unit
  Fits lib (reports h index) = Unit
  Fits lib (polls tested taken noted location) = Unit
  Fits lib (drives now now') = Unit
  Fits lib (keeps sent_ok clock battery modules gauge) = Unit
  Fits lib (hears added now mac bytes) = Unit
  Fits lib (sent success) = Unit
  Fits lib (advertises now rssi remote_id payload) = Unit

  -- The worlds that calls lead to, from one of them, with all that they gave to the outside.
  pub data Reach (lib : Libraries K C F) (s : World C F) : World C F → Type 0 where
    here : Reach lib s s
    next :
        {t u : World C F} {effects : List (Effect F)}
        → Reach lib s t
        → (c : Call K C F) → Fits lib c
        → run lib c t ≡ some (effects, u)
        → Reach lib s u
