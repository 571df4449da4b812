-- ===== src/Firmware/Duties.antt =====
-- The other tasks of src/main.cpp, `loop`, and what the radio and the network call.
use sky_sweep.Prelude.{
  ℕ, zero, suc, Bool, ◌&&◌, not, Option, some, List, [], ◌∷◌, ◌++◌, if◌then◌else◌, leb, sub32, map,
  Bytes, length, ◌>>=◌,
}
use sky_sweep.Prelude.Int.{ℤ, pos}
use sky_sweep.Power.Gauge.{Gauge, gauge_percent}
use sky_sweep.Power.Manager.{read_battery}
use sky_sweep.Alert.Manager.{update as update_alerts}
use sky_sweep.Mesh.Node.{Mesh, on_receive, on_send}
use sky_sweep.Mesh.Send.{Clock, update as update_mesh}
use sky_sweep.Logger.Entries.{log_drone_remote_id}
use sky_sweep.Web.Server.{Observed, update as update_web, broadcast_drone_detection}
use sky_sweep.Web.Routes.{Route, Request, Answers, handle}
use sky_sweep.RemoteId.Message.{Drone}
use sky_sweep.RemoteId.Detector.{on_result, get_drone_data, update as update_detector}
use sky_sweep.Gnss.Receiver.{Location, update as update_gnss}
use sky_sweep.Firmware.Screen.{draw_page, follow_stealth}
use sky_sweep.Firmware.World.{
  Libraries, World, Effect, frame, dashboard, pins, screen, starts_scan, receiver_names, with_app,
  with_mesh, with_alerts, on_logger, effect_of,
}

-- What the report of a drone finds: the dashboards, whether the bus is obtained for the log, and
-- the two times of the log.
pub record Reporting : Type 0 where
  pub clients : ℕ
  pub obtained : Bool
  pub noted : ℕ
  pub logged : ℕ

module _ {K C F : Type 0} (lib : Libraries K C F) where
  -- The body of `taskDisplayUpdate`, for the reading of the clock in `isFixValid`.
  unfoldable pub refresh_display : ℕ → World C F → List (Effect F) × World C F
  refresh_display now w =
      let stealth = w.device.app.config.cfg.stealth_mode in
      (
        map screen (
            follow_stealth stealth w.previous_stealth
            ++ (if stealth
                then []
                else draw_page lib.texts now receiver_names w.receivers w.activity w.gnss)),
        record w { previous_stealth = stealth },
      )

  -- A request of the network has a handler once the server runs.
  unfoldable pub serve_request : Answers C → Route → Request K → World C F → World C F
  serve_request ans route r w =
      if w.device.app.server.is_running
      then with_app
          (handle lib.services (record ans { card = w.device.card }) route r w.device.app).1 w
      else w

  -- One report of `taskRemoteID`.
  unfoldable pub report_drone : Reporting → Drone → World C F → List (Effect F) × World C F
  report_drone h d w = if not d.is_valid then ([], w) else (
    effect_of dashboard (
        broadcast_drone_detection h.clients d.uas_id (lib.of_degrees d.latitude)
          (lib.of_degrees d.longitude) (lib.of_altitude d.altitude) w.device.app.server),
    on_logger
        (λ s.
          (log_drone_remote_id lib.services.sd lib.format h.obtained h.noted h.logged d.uas_id
            (lib.of_degrees d.latitude) (lib.of_degrees d.longitude) (lib.of_altitude d.altitude)
            d.rssi s).1)
        w,
  )

  unfoldable pub report_index : Reporting → ℕ → World C F → Option (List (Effect F) × World C F)
  report_index h index w = get_drone_data index w.detector >>= λ d. some (report_drone h d w)

  -- The loop over the reports from an index on, with the rounds that are left.
  unfoldable pub report_from :
      (ℕ → Reporting) → ℕ → ℕ → World C F → Option (List (Effect F) × World C F)
  report_from h zero index w = some ([], w)
  report_from h (suc n) index w = report_index (h index) index w >>= λ (effects, u).
      report_from h n (suc index) u >>= λ (more, v). some (effects ++ more, v)

-- Whether `update` of the mesh sends a heartbeat.
unfoldable pub is_due : Clock → Mesh → Bool
is_due clock m = m.initialized && leb m.heartbeat_interval_ms (sub32 clock.tested m.last_heartbeat)

module _ {C F : Type 0} where
  -- `remoteIDDetector.update`
  unfoldable pub scan_ids : ℕ → ℕ → ℕ → World C F → Option (List (Effect F) × World C F)
  scan_ids tested noted cleaned w =
      update_detector tested noted cleaned w.detector >>= λ (d, scans).
      some (if scans then starts_scan ∷ [] else [], record w { detector = d })

  -- `webServer.update`
  unfoldable pub refresh_dashboards : Observed F → World C F → List (Effect F) × World C F
  refresh_dashboards o w =
      let (message, a) = update_web o w.device.app in (effect_of dashboard message, with_app a w)

  -- `gpsModule.update`
  unfoldable pub poll_gnss : ℕ → ℕ → ℕ → Option (Location F) → World C F → World C F
  poll_gnss tested taken noted location w = record w {
    gnss = update_gnss tested taken noted location w.gnss;
  }

  -- `alertManager.update`, with its two readings of the clock.
  unfoldable pub drive_alerts : ℕ → ℕ → World C F → List (Effect F) × World C F
  drive_alerts now now' w =
      let stealth = w.device.app.config.cfg.stealth_mode in
      let (actions, m) = update_alerts stealth now stealth now' w.device.alerts in
      (map pins actions, with_alerts m w)

  -- `espNowMesh.update`, whose heartbeat reads the battery.
  unfoldable pub keep_mesh :
      Bool → Clock → ℕ → ℕ → Gauge → World C F → Option (List (Effect F) × World C F)
  keep_mesh sent_ok clock battery modules gauge w =
      let a = w.device.app in
      let power =
        if is_due clock w.device.mesh
        then read_battery (gauge_percent gauge) a.power
        else a.power in
      update_mesh sent_ok clock battery modules w.device.mesh >>= λ (message, m). some (
        effect_of (λ (address, bytes). frame address bytes) message,
        with_mesh m (with_app (record a { power = power }) w),
      )

  -- The callbacks of ESP-NOW; a message arrives with its true length.
  unfoldable pub hear_message : ℕ → ℕ → Bytes → Bytes → World C F → Option (World C F)
  hear_message added now mac bytes w =
      on_receive added now w.device.mesh (some mac) (some bytes) (pos (length bytes)) >>= λ m.
      some (with_mesh m w)

  unfoldable pub note_sent : Bool → World C F → World C F
  note_sent success w = with_mesh (on_send w.device.mesh success) w

  -- The callback of the Bluetooth scanner.
  unfoldable pub hear_advertisement : ℕ → ℤ → Bool → Option Bytes → World C F → Option (World C F)
  hear_advertisement now rssi remote_id payload w =
      on_result now rssi remote_id payload w.detector >>= λ d. some (record w { detector = d })

-- The body of `taskRemoteID`; the count is read once.
unfoldable pub report_round :
    {K C F : Type 0}
    → Libraries K C F
    → ℕ
    → ℕ
    → ℕ
    → (ℕ → Reporting)
    → World C F
    → Option (List (Effect F) × World C F)
report_round lib tested noted cleaned h w = scan_ids tested noted cleaned w >>= λ (effects, u).
    report_from lib h u.detector.drone_count 0 u >>= λ (more, v). some (effects ++ more, v)
