-- ===== src/Logger/Entries.antt =====
-- The functions of `DataLogger` that add a line to the current file.
use sky_sweep.Prelude.{
  ℕ, ◌+◌, Bool, false, not, ◌||◌, Option, none, some, if◌then◌else◌, ltb, take, u32, Bytes,
}
use sky_sweep.Prelude.Int.{ℤ}
use sky_sweep.Logger.Card.{
  Library, LogLevel, level_number, Format, DetectionLogEntry, System, with_lock,
}
use sky_sweep.Logger.Rotation.{rotate_logs_if_needed}

-- The file that was opened, and the line printed to it, if it could be opened.
unfoldable pub note_written : {C : Type 0} → Option (ℕ × C) → System C → Bool × System C
note_written none s = (false, s)
note_written (some (written, c)) s = (
  ltb 0 written,
  record s {
    logger = record s.logger { current_file_size = u32 (s.logger.current_file_size + written) };
    card = c;
  },
)

-- The part under the lock: the rotation, and a line of at most 255 characters.
unfoldable pub write_line :
    {C F : Type 0} → Library C → Format F → ℕ → Bytes → System C → Bool × System C
write_line sd f now log_line s =
    let t = rotate_logs_if_needed sd f now s in
    note_written (sd.append t.logger.current_log_file (take 255 log_line) t.card) t

unfoldable pub log_detection :
    {C F : Type 0}
    → Library C
    → Format F
    → Bool
    → ℕ
    → DetectionLogEntry F
    → System C
    → Bool × System C
log_detection sd f obtained now entry s =
    if not s.logger.sd_card_available
    then (false, s)
    else with_lock sd obtained false (write_line sd f now (f.detection entry)) s

-- `logRFData`; the names are cut to 15 characters.
unfoldable pub log_rf_data :
    {C F : Type 0}
    → Library C
    → Format F
    → Bool
    → ℕ
    → ℕ
    → Bytes
    → ℤ
    → F
    → Bytes
    → System C
    → Bool × System C
log_rf_data sd f obtained noted now module_name rssi freq protocol s =
    log_detection sd f obtained now
      (record {
        timestamp = noted;
        module_name = take 15 module_name;
        rssi = rssi;
        frequency = freq;
        protocol = take 15 protocol;
        latitude = f.zero_number;
        longitude = f.zero_number;
        altitude = f.zero_number;
      })
      s

unfoldable pub log_drone_remote_id :
    {C F : Type 0}
    → Library C
    → Format F
    → Bool
    → ℕ
    → ℕ
    → Bytes
    → F
    → F
    → F
    → ℤ
    → System C
    → Bool × System C
log_drone_remote_id sd f obtained now noted uas_id lat lon alt rssi s =
    if not s.logger.sd_card_available
    then (false, s)
    else with_lock sd obtained false
        (write_line sd f now (f.remote_id noted uas_id lat lon alt rssi)) s

unfoldable pub log_system_event :
    {C F : Type 0}
    → Library C
    → Format F
    → Bool
    → ℕ
    → ℕ
    → LogLevel
    → Bytes
    → System C
    → Bool × System C
log_system_event sd f obtained now noted level message s =
    if not s.logger.sd_card_available
      || ltb (level_number level) (level_number s.logger.minimum_log_level)
    then (false, s)
    else with_lock sd obtained false (write_line sd f now (f.system_event noted level message)) s

unfoldable pub set_log_level : {C : Type 0} → LogLevel → System C → System C
set_log_level level s = record s { logger = record s.logger { minimum_log_level = level } }

unfoldable pub set_rotation_size : {C : Type 0} → ℕ → System C → System C
set_rotation_size size_bytes s = record s {
  logger = record s.logger { log_rotation_size = size_bytes };
}
