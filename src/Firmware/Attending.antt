-- ===== src/Firmware/Attending.antt =====
-- Every call of the other tasks, of the loop and of the callbacks keeps the objects sound.
use sky_sweep.Prelude.{
  ℕ, ◌≡◌, refl, sym, ◌∙◌, inl, inr, Bool, true, false, Bool-cases, Option, some, List, [], arith,
  ltb, sub32, Bytes, ◌>>=◌, if◌then◌else◌, get_elem?-eq-get_or,
}
use sky_sweep.Prelude.Int.{ℤ}
use sky_sweep.Power.Gauge.{Gauge, gauge_percent}
use sky_sweep.Power.Manager.{read_battery}
use sky_sweep.Power.Mode.{read_battery-Follows}
use sky_sweep.Logger.Balance.{identifies, run-bus}
use sky_sweep.Mesh.Receive.{on_receive-hear}
use sky_sweep.Mesh.Send.{Clock}
use sky_sweep.Mesh.Sending.{on_send-Represents, update-Updates}
use sky_sweep.RemoteId.Message.{Drone, empty_drone}
use sky_sweep.RemoteId.Detector.{Detector, get_drone_data, update as update_detector}
use sky_sweep.RemoteId.Result.{on_result-Handles, IsValid}
use sky_sweep.RemoteId.Table.{Returns}
use sky_sweep.RemoteId.Cleanup.{cleanup_old_detections-recent}
use sky_sweep.Web.Server.{Observed}
use sky_sweep.Web.Routes.{Route, Request, Answers}
use sky_sweep.Web.Guard.{handle-Stands}
use sky_sweep.Web.Kept.{handle-server, update-Refreshes}
use sky_sweep.Firmware.World.{Libraries, World, Effect, with_app}
use sky_sweep.Firmware.Duties.{
  Reporting, refresh_display, serve_request, report_drone, report_index, scan_ids,
  refresh_dashboards, poll_gnss, drive_alerts, is_due, keep_mesh, hear_message, note_sent,
  hear_advertisement,
}
use sky_sweep.Firmware.Sound.{
  Sound, with_app-Sound, with_mesh-Sound, with_alerts-Sound, with_detector-Sound,
}
use sky_sweep.Firmware.Observing.{Continues, continues, on_logger-Sound}

module _ {K C F : Type 0} (lib : Libraries K C F) where
  pub serve_request-Sound :
      (ans : Answers C) (route : Route) (r : Request K) (w : World C F)
      → Sound w
      → Sound (serve_request lib ans route r w)
  unfolding serve_request
  serve_request-Sound ans route r w s = elim (Bool-cases w.device.app.server.is_running) [
    | inr off ↦ simp off s
    | inl on ↦
        let ans' = record ans { card = w.device.card } in
        let same = handle-server lib.services ans' route r w.device.app in
        let g = s.guards on in
        simp on (
          with_app-Sound w s _ (λ running. record {
            stands = handle-Stands lib.services ans' route r w.device.app g.stands;
            long = rw same g.long;
          }))
  ]

  report_drone-Sound :
      (h : Reporting) (d : Drone) (w : World C F) → Sound w → Sound (report_drone lib h d w).1
  unfolding report_drone
  report_drone-Sound h d w s = elim (Bool-cases d.is_valid) [
    | inr invalid ↦ simp invalid s
    | inl valid ↦ simp valid (
        on_logger-Sound _ w
          (λ t.
            (run-bus lib.services.sd lib.format h.obtained
              (identifies h.noted h.logged d.uas_id (lib.of_degrees d.latitude)
                (lib.of_degrees d.longitude) (lib.of_altitude d.altitude) d.rssi)
              t))
          s)
  ]

  get_drone_data-Returns : (index : ℕ) (d : Detector) → IsValid d → Returns (get_drone_data index d)
  unfolding get_drone_data
  get_drone_data-Returns index d v = elim (Bool-cases (ltb index d.drone_count)) [
    | inr beyond ↦ rw beyond (record { value = empty_drone; returns = refl })
    | inl within ↦ rw within (record {
      value = _;
      returns =
          get_elem?-eq-get_or d.detected_drones index empty_drone
            (ground (arith, within, v.size, v.count_in));
    })
  ]

  pub report_index-Continues :
      (h : Reporting) (index : ℕ) (w : World C F) → Sound w → Continues (report_index lib h index w)
  unfolding report_index
  report_index-Continues h index w s =
      let got = get_drone_data-Returns index w.detector s.drones in
      rw got.returns (continues _ _ (report_drone-Sound h got.value w s))

  pub refresh_display-Sound :
      (now : ℕ) (w : World C F) → Sound w → Sound (refresh_display lib now w).1
  unfolding refresh_display
  refresh_display-Sound now w s = record {
    in_band = s.in_band;
    free = s.free;
    guards = s.guards;
    known = s.known;
    peers = s.peers;
    drones = s.drones;
    activity = s.activity;
    readings = s.readings;
    counter = s.counter;
  }

-- `update` of the detector returns, with a valid table.
record Valid (r : Option (Detector × Bool)) : Type 0 where
  next : Detector
  scans : Bool
  returns : r ≡ some (next, scans)
  valid : IsValid next

update_detector-Valid :
    (tested noted cleaned : ℕ) (d : Detector)
    → IsValid d
    → Valid (update_detector tested noted cleaned d)
unfolding update_detector
update_detector-Valid tested noted cleaned d v =
    let e = record d { last_scan_time = noted } in
    let (next, returns, same, valid) =
      cleanup_old_detections-recent cleaned 30000 e
        (record { size = v.size; count_in = v.count_in }) in
    elim (Bool-cases (ltb (sub32 tested d.last_scan_time) d.scan_interval)) [
      | inl early ↦ rw early (record { next = d; scans = false; returns = refl; valid = v })
      | inr due ↦
          rw (due, returns) (record { next = next; scans = true; returns = refl; valid = valid })
    ]

module _ {C F : Type 0} where
  pub scan_ids-Continues :
      (tested noted cleaned : ℕ) (w : World C F)
      → Sound w
      → Continues (scan_ids tested noted cleaned w)
  unfolding scan_ids
  scan_ids-Continues tested noted cleaned w s =
      let u = update_detector-Valid tested noted cleaned w.detector s.drones in
      rw u.returns (continues _ _ (with_detector-Sound w s u.next u.valid))

  pub refresh_dashboards-Sound :
      (o : Observed F) (w : World C F) → Sound w → Sound (refresh_dashboards o w).1
  unfolding refresh_dashboards
  refresh_dashboards-Sound o w s =
      let kept = update-Refreshes o w.device.app in
      with_app-Sound w s _ (λ running.
        let g = s.guards (sym kept.running ∙ running) in
        record { stands = kept.stands g.stands; long = rw kept.password g.long })

  pub poll_gnss-Sound :
      (tested taken noted : ℕ) (location : Option _) (w : World C F)
      → Sound w
      → Sound (poll_gnss tested taken noted location w)
  unfolding poll_gnss
  poll_gnss-Sound tested taken noted location w s = record {
    in_band = s.in_band;
    free = s.free;
    guards = s.guards;
    known = s.known;
    peers = s.peers;
    drones = s.drones;
    activity = s.activity;
    readings = s.readings;
    counter = s.counter;
  }

  pub drive_alerts-Sound :
      (now now' : ℕ) (w : World C F) → Sound w → Sound (drive_alerts now now' w).1
  unfolding drive_alerts
  drive_alerts-Sound now now' w s = with_alerts-Sound w s _

  pub keep_mesh-Continues :
      (ok : Bool) (clock : Clock) (battery modules : ℕ) (gauge : Gauge) (w : World C F)
      → Sound w
      → Continues (keep_mesh ok clock battery modules gauge w)
  unfolding keep_mesh
  keep_mesh-Continues ok clock battery modules gauge w s =
      let a = w.device.app in
      let p =
        if is_due clock w.device.mesh
        then read_battery (gauge_percent gauge) a.power
        else a.power in
      let u = update-Updates ok clock battery modules w.device.mesh s.known s.peers in
      let charged : Sound (with_app (record a { power = p }) w) =
        with_app-Sound w s (record a { power = p })
          (λ running.
            let g = s.guards running in
            record {
              stands = record {
                network = g.stands.network;
                follows = elim (Bool-cases (is_due clock w.device.mesh)) [
                  | inl due ↦
                      rw due (read_battery-Follows (gauge_percent gauge) a.power g.stands.follows)
                  | inr early ↦ rw early g.stands.follows
                ];
              };
              long = g.long;
            }) in
      rw u.returns (continues _ _ (with_mesh-Sound _ charged u.next u.known u.stands))

  pub hear_message-Continues :
      (added now : ℕ) (mac bytes : Bytes) (w : World C F)
      → Sound w
      → Continues {A = List (Effect F)} (hear_message added now mac bytes w >>= λ u. some ([], u))
  unfolding hear_message
  hear_message-Continues added now mac bytes w s =
      let l = on_receive-hear added now w.device.mesh s.known mac bytes s.peers in
      rw l.returns (continues _ _ (with_mesh-Sound w s l.next _ l.stands))

  pub note_sent-Sound : (success : Bool) (w : World C F) → Sound w → Sound (note_sent success w)
  unfolding note_sent
  note_sent-Sound success w s =
      with_mesh-Sound w s _ s.known (on_send-Represents w.device.mesh s.known s.peers success)

  pub hear_advertisement-Continues :
      (now : ℕ) (rssi : ℤ) (remote_id : Bool) (payload : Option Bytes) (w : World C F)
      → Sound w
      → Continues {A = List (Effect F)}
          (hear_advertisement now rssi remote_id payload w >>= λ u. some ([], u))
  unfolding hear_advertisement
  hear_advertisement-Continues now rssi remote_id payload w s =
      let h = on_result-Handles now rssi remote_id payload w.detector s.drones in
      rw h.returns (continues _ _ (with_detector-Sound w s h.next h.valid))
