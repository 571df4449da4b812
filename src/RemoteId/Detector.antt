-- ===== src/RemoteId/Detector.antt =====
-- `RemoteIDDetector`: the table of drones and its cleanup. An access outside an array is the fault
-- `none`.
use sky_sweep.Prelude.{
  ℕ, zero, suc, ◌+◌, Bool, true, false, ◌&&◌, Option, none, some, List, if◌then◌else◌, ◌==◌, ltb,
  leb, u8, sub32, Bytes, length, replicate, load, store, ◌>>=◌,
}
use sky_sweep.Prelude.Int.{ℤ}
use sky_sweep.RemoteId.Message.{Drone, empty_drone, same_text, is_zero, parse_message}

abbrev pub max_detected_drones : ℕ
max_detected_drones = 20

-- The fields of `RemoteIDDetector` but the handle of the scanner.
pub record Detector : Type 0 where
  pub detected_drones : List Drone
  pub drone_count : ℕ
  pub scan_interval : ℕ
  pub last_scan_time : ℕ

-- The constructor.
abbrev pub new_detector : ℕ → Detector
new_detector interval = record {
  detected_drones = replicate max_detected_drones empty_drone;
  drone_count = 0;
  scan_interval = interval;
  last_scan_time = 0;
}

-- The loop of `findDroneByID` from entry `i`; `some none` is -1.
unfoldable pub find_drone_from : ℕ → ℕ → List Drone → Bytes → Option (Option ℕ)
find_drone_from zero i drones id = some none
find_drone_from (suc n) i drones id = load drones i >>= λ d.
    (if same_text d.uas_id id then some (some i) else find_drone_from n (suc i) drones id)

-- The assignments to an entry that is there.
unfoldable pub merge : Drone → Drone → Drone
merge drone old = record old {
  latitude = if is_zero drone.latitude then old.latitude else drone.latitude;
  longitude = if is_zero drone.longitude then old.longitude else drone.longitude;
  altitude = if is_zero drone.altitude then old.altitude else drone.altitude;
  rssi = drone.rssi;
  last_seen = drone.last_seen;
}

-- Update the entry that was found, or add a new one.
unfoldable pub place : Detector → Drone → Option ℕ → Option Detector
place d drone (some i) = do
  old ← load d.detected_drones i
  drones ← store d.detected_drones i (merge drone old)
  some (record d { detected_drones = drones })
place d drone none =
    if drone.is_valid && ltb d.drone_count max_detected_drones
    then (do
      drones ← store d.detected_drones d.drone_count drone
      some (record d { detected_drones = drones; drone_count = u8 (d.drone_count + 1) }))
    else some d

unfoldable pub record_drone : Detector → Option Drone → Option Detector
record_drone d none = some d
record_drone d (some drone) =
    find_drone_from d.drone_count 0 d.detected_drones drone.uas_id >>= place d drone

-- `onResult` for an advertisement with the Remote ID service and service data; the length is taken
-- into a byte.
unfoldable pub on_service_data : ℕ → ℤ → Bytes → Detector → Option Detector
on_service_data now rssi payload d =
    if ltb (u8 (length payload)) 2
    then some d
    else (parse_message (u8 (length payload)) payload
          (record empty_drone { rssi = rssi; last_seen = now })
        >>= record_drone d)

-- `onResult`: an advertisement may lack the service or its data.
unfoldable pub on_result : ℕ → ℤ → Bool → Option Bytes → Detector → Option Detector
on_result now rssi remote_id none d = some d
on_result now rssi remote_id (some payload) d =
    if remote_id then on_service_data now rssi payload d else some d

-- The loop of `cleanupOldDetections` from entry `i`, with its write index.
unfoldable pub cleanup_from : ℕ → ℕ → ℕ → ℕ → ℕ → List Drone → Option (ℕ × List Drone)
cleanup_from now timeout_ms zero i write_idx drones = some (write_idx, drones)
cleanup_from now timeout_ms (suc n) i write_idx drones = do
  drone ← load drones i
  if leb (sub32 now drone.last_seen) timeout_ms
      then (do
        moved ← (if write_idx == i then some drones else store drones write_idx drone)
        cleanup_from now timeout_ms n (suc i) (u8 (write_idx + 1)) moved)
      else cleanup_from now timeout_ms n (suc i) write_idx drones

unfoldable pub cleanup_old_detections : ℕ → ℕ → Detector → Option Detector
cleanup_old_detections now timeout_ms d =
    cleanup_from now timeout_ms d.drone_count 0 0 d.detected_drones >>= λ (count, drones).
    some (record d { detected_drones = drones; drone_count = count })

-- `getDroneData`
unfoldable pub get_drone_data : ℕ → Detector → Option Drone
get_drone_data index d =
    if ltb index d.drone_count then load d.detected_drones index else some empty_drone

unfoldable pub clear_detections : Detector → Detector
clear_detections d = record d {
  drone_count = 0;
  detected_drones = replicate max_detected_drones empty_drone;
}

-- `update`, with its readings of the clock; the second result says whether a scan is started.
unfoldable pub update : ℕ → ℕ → ℕ → Detector → Option (Detector × Bool)
update tested noted cleaned d =
    if ltb (sub32 tested d.last_scan_time) d.scan_interval
    then some (d, false)
    else (cleanup_old_detections cleaned 30000 (record d { last_scan_time = noted }) >>= λ e.
        some (e, true))
