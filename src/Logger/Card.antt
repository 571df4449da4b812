-- ===== src/Logger/Card.antt =====
-- The SD library and the text formats that `DataLogger` uses, as interfaces, and its own state.
use sky_sweep.Prelude.{ℕ, Bool, false, Option, List, [], ◌∷◌, if◌then◌else◌, Bytes}
use sky_sweep.Prelude.Int.{ℤ}
use sky_sweep.Spi.Bus.{Event, Bus, acquire, release}

-- What `openNextFile` shows of an entry of the log directory.
pub record File : Type 0 where
  pub name : Bytes
  pub is_directory : Bool
  pub last_write : ℕ
  pub size : ℕ
  pub lines : List Bytes

-- The library, for a type of cards. `list_logs` gives the entries of the log directory, if it can
-- be opened; `append` and `print` answer how many bytes they wrote, if the file can be opened.
-- `traffic` is what the accesses that bring the card from one state to another put on the bus, which
-- the library is given in `begin`, added to the traffic before.
pub record Library (C : Type 0) : Type 0 where
  pub mount : C → Bool × C
  pub unmount : C → C
  pub exists : Bytes → C → Bool
  pub make_log_dir : C → Bool × C
  pub list_logs : C → Option (List File)
  pub remove : Bytes → C → C
  pub append : Bytes → Bytes → C → Option (ℕ × C)
  pub open_write : Bytes → C → Option C
  pub print : Bytes → Bytes → C → C
  pub traffic : C → C → List Event → List Event

-- `LogLevel`
pub data LogLevel : Type 0 where
  log_debug log_info log_warning log_error log_critical : LogLevel

abbrev pub level_number : LogLevel → ℕ
level_number log_debug = 0
level_number log_info = 1
level_number log_warning = 2
level_number log_error = 3
level_number log_critical = 4

-- `DetectionLogEntry`, for a type of floating-point numbers.
pub record DetectionLogEntry (F : Type 0) : Type 0 where
  pub timestamp : ℕ
  pub module_name : Bytes
  pub rssi : ℤ
  pub frequency : F
  pub protocol : Bytes
  pub latitude : F
  pub longitude : F
  pub altitude : F

-- The numbers, and the texts that the `snprintf` calls would give without a limit.
pub record Format (F : Type 0) : Type 0 where
  pub zero_number : F
  pub log_file_name : ℕ → Bytes
  pub detection : DetectionLogEntry F → Bytes
  pub remote_id : ℕ → Bytes → F → F → F → ℤ → Bytes
  pub system_event : ℕ → LogLevel → Bytes → Bytes

pub record DataLogger : Type 0 where
  pub sd_card_available : Bool
  pub current_log_file : Bytes
  pub log_rotation_size : ℕ
  pub current_file_size : ℕ
  pub minimum_log_level : LogLevel

-- The constructor; `MAX_LOG_SIZE_MB` is 10.
abbrev pub new_logger : DataLogger
new_logger = record {
  sd_card_available = false;
  current_log_file = [];
  log_rotation_size = 10485760;
  current_file_size = 0;
  minimum_log_level = log_info;
}

-- The accesses of one locked function to the card: the bus they find, and all traffic after them.
-- The bus itself records what is sent to the receivers; their chips, which are deselected, do not
-- hear what is sent to the card.
pub record Session : Type 0 where
  pub bus : Bus
  pub after : List Event

-- The logger, the card, the bus that guards it, and the sessions of the card, the latest first.
pub record System (C : Type 0) : Type 0 where
  pub logger : DataLogger
  pub card : C
  pub bus : Bus
  pub sessions : List Session

-- `SPIBusLock` around the rest of a function: the bus is acquired, and released at every return.
unfoldable pub with_lock :
    {A C : Type 0} → Library C → Bool → A → (System C → A × System C) → System C → A × System C
with_lock sd obtained refused body s =
    let (locked, b) = acquire obtained s.bus in
    if locked
    then (let (a, t) = body (record s { bus = b }) in
        (
          a,
          record t {
            bus = release t.bus;
            sessions =
                record { bus = t.bus; after = sd.traffic s.card t.card t.bus.traffic } ∷ t.sessions;
          },
        ))
    else (refused, record s { bus = b })
