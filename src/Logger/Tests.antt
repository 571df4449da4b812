-- ===== src/Logger/Tests.antt =====
-- The logger at concrete inputs, on a card that is the list of its log files.
use sky_sweep.Prelude.{
  ℕ, zero, suc, ◌+◌, ◌<◌, ◌≤◌, ◌≡◌, refl, true, false, some, List, [], ◌∷◌, arith, All, length,
}
use sky_sweep.Spi.Bus.{sd_card, low, high, sent}
use sky_sweep.Spi.Tests.{new_bus}
use sky_sweep.Logger.Card.{File, Library, Format, new_logger, System}
use sky_sweep.Logger.Rotation.{count_files, rotate_logs_if_needed}
use sky_sweep.Logger.Oldest.{Oldest, rotate-Oldest}

-- The card forgets what is appended; `remove` empties it, so that its effect is seen.
abbrev example_library : Library (List File)
example_library = record {
  mount = λ c. (true, c);
  unmount = λ c. c;
  exists = λ p c. true;
  make_log_dir = λ c. (true, c);
  list_logs = λ c. some c;
  remove = λ p c. [];
  append = λ p t c. some (length t, c);
  open_write = λ p c. some c;
  print = λ p t c. c;
  traffic = λ before after t. high sd_card ∷ sent 255 ∷ low sd_card ∷ t;
}

abbrev pub example_format : Format ℕ
example_format = record {
  zero_number = 0;
  log_file_name = λ now. now ∷ [];
  detection = λ e. e.timestamp ∷ [];
  remote_id = λ now n lat lon alt rssi. now ∷ [];
  system_event = λ now level m. m;
}

abbrev file : ℕ → File
file n = record {
  name = n ∷ [];
  is_directory = false;
  last_write = n + 1000;
  size = 10;
  lines = [];
}

abbrev files : ℕ → List File
files zero = []
files (suc n) = file n ∷ files n

abbrev full_system : System (List File)
full_system = record {
  logger = record new_logger {
    sd_card_available = true;
    log_rotation_size = 100;
    current_file_size = 100;
  };
  card = files 51;
  bus = new_bus;
  sessions = [];
}

files-times : (n : ℕ) → n ≤ 100 → All (λ e. e.last_write < 4294967295) (files n)
files-times zero h = tt
files-times (suc n) h = (omega arith, files-times n (omega arith))

many : 50 < count_files (files 51) 0
unfolding count_files
many = omega arith

rotate-Oldest_example :
    (o : Oldest (files 51)) × ((rotate_logs_if_needed example_library example_format 7
        full_system).card
      ≡ [])
rotate-Oldest_example =
    rotate-Oldest example_library example_format 7 full_system (files 51) (omega arith) refl
      (files-times 51 (omega arith)) many
