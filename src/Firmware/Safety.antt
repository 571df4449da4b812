-- ===== src/Firmware/Safety.antt =====
-- What no interleaving of the calls can break.
use sky_sweep.Prelude.{sym, ap, subst, ◌∙◌, Option, none, some}
use sky_sweep.Monitor.Steady.{IsDocumented, IsPercent}
use sky_sweep.Firmware.World.{Libraries, World}
use sky_sweep.Firmware.Sound.{Sound}
use sky_sweep.Firmware.Observing.{
  Continues, continues, sense-Sound, sense-IsPercent, judge-Continues, carry_out-Sound,
  sweep_bands-Sound, manage_power-Sound,
}
use sky_sweep.Firmware.Attending.{
  serve_request-Sound, report_index-Continues, refresh_display-Sound, scan_ids-Continues,
  refresh_dashboards-Sound, poll_gnss-Sound, drive_alerts-Sound, keep_mesh-Continues,
  hear_message-Continues, note_sent-Sound, hear_advertisement-Continues,
}
use sky_sweep.Firmware.Calls.{
  Call, senses, judges, carries, tells, sweeps, manages, draws, refreshes, serves, scans, reports,
  polls, drives, keeps, hears, sent, advertises, run, Fits, Reach, here, next,
}

abbrev world_or : {A C F : Type 0} → World C F → Option (A × World C F) → World C F
world_or u none = u
world_or u (some (a, w)) = w

module _ {K C F : Type 0} (lib : Libraries K C F) (documented : IsDocumented lib.sensing) where
  pub run-Continues :
      (c : Call K C F) (w : World C F) → Fits lib c → Sound w → Continues (run lib c w)
  unfolding run
  run-Continues (senses f receiver) w h s =
      continues _ _ (sense-Sound lib f receiver w documented s).1
  run-Continues (judges receiver r) w (h, sensed) s =
      let percent =
        subst IsPercent sensed.answers
          (sense-IsPercent lib sensed.found sensed.receiver sensed.world documented) in
      let j = judge-Continues lib receiver r w h percent s in rw j.returns (continues _ _ j.sound)
  run-Continues (carries h report) w fits s = continues _ _ (carry_out-Sound lib h report w s)
  run-Continues (tells clients) w fits s = continues _ _ s
  run-Continues (sweeps obtained) w fits s = continues _ _ (sweep_bands-Sound obtained w s)
  run-Continues (manages tested noted gauge) w fits s =
      continues _ _ (manage_power-Sound tested noted gauge w s)
  run-Continues (draws now) w fits s = continues _ _ (refresh_display-Sound lib now w s)
  run-Continues (refreshes o) w fits s = continues _ _ (refresh_dashboards-Sound o w s)
  run-Continues (serves ans route r) w fits s =
      continues _ _ (serve_request-Sound lib ans route r w s)
  run-Continues (scans tested noted cleaned) w fits s = scan_ids-Continues tested noted cleaned w s
  run-Continues (reports h index) w fits s = report_index-Continues lib h index w s
  run-Continues (polls tested taken noted location) w fits s =
      continues _ _ (poll_gnss-Sound tested taken noted location w s)
  run-Continues (drives now now') w fits s = continues _ _ (drive_alerts-Sound now now' w s)
  run-Continues (keeps ok clock battery modules gauge) w fits s =
      keep_mesh-Continues ok clock battery modules gauge w s
  run-Continues (hears added now mac bytes) w fits s =
      hear_message-Continues added now mac bytes w s
  run-Continues (sent success) w fits s = continues _ _ (note_sent-Sound success w s)
  run-Continues (advertises now rssi remote_id payload) w fits s =
      hear_advertisement-Continues now rssi remote_id payload w s

  pub Reach-Sound : {s w : World C F} → Sound s → Reach lib s w → Sound w
  Reach-Sound sound here = sound
  Reach-Sound sound (next {t} {u} r c h e) =
      let k = run-Continues c t h (Reach-Sound sound r) in
      subst Sound (ap (world_or u) (sym k.returns ∙ e)) k.sound
