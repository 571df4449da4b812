-- ===== src/Web/Tests.antt =====
-- The web server at concrete inputs: the credentials are a password, and every body parses to the
-- same document.
use sky_sweep.Prelude.{
  ◌≡◌, refl, true, false, Option, none, some, List, [], ◌∷◌, Bytes, replicate, ltb, length,
  if◌then◌else◌,
}
use sky_sweep.Config.Storage.{is_text}
use sky_sweep.Config.Manager.{to_json}
use sky_sweep.Config.Tests.{exact, ready, online-IsReachable, working}
use sky_sweep.Power.Manager.{power_full}
use sky_sweep.Spi.Bus.{sd_card, low, high, sent}
use sky_sweep.Logger.Card.{File, Library}
use sky_sweep.Web.Server.{App, new_server}
use sky_sweep.Web.Body.{body_max, joined}
use sky_sweep.Web.Routes.{
  Services, save_config, power, download, Request, Answers, failed, unauthorized, log_file,
  is_authenticated, require_management_auth, handle, is_refused, download_file,
}
use sky_sweep.Web.Guard.{Stands, serve, serve-unauthorized}
use sky_sweep.Web.Upload.{imported, posted, handle-posted, HandsOut, handle-HandsOut}

abbrev pub card_library : Library (List File)
card_library = record {
  mount = λ c. (true, c);
  unmount = λ c. c;
  exists = λ p c. true;
  make_log_dir = λ c. (true, c);
  list_logs = λ c. some c;
  remove = λ p c. c;
  append = λ p t c. some (length t, c);
  open_write = λ p c. some c;
  print = λ p t c. c;
  traffic = λ before after t. high sd_card ∷ sent 255 ∷ low sd_card ∷ t;
}

abbrev pub services : Services Bytes (List File)
services = record {
  authenticate = λ k user password. is_text k password;
  parse = λ text. some (to_json ready.cfg);
  conversions = exact;
  sd = card_library;
}

abbrev secret : Bytes
secret = replicate 16 97

abbrev app : App
app = record {
  server = record new_server { is_running = true; management_password = secret };
  config = ready;
  power = record {
    current_mode = power_full;
    battery_percent = 80;
    battery_monitoring = true;
    last_battery_read = 0;
    cpu_mhz = 240;
    wifi_power_save = false;
  };
}

app-Stands : Stands app
app-Stands = record { network = online-IsReachable; follows = record { cpu = refl; wifi = refl } }

abbrev answers : Answers (List File)
answers = record {
  card = [];
  storage = working;
  removed = true;
  now = 5000;
  heap = 1000;
  cpu_mhz = 240;
}

abbrev request : Bytes → Option Bytes → Request Bytes
request k param = record {
  credentials = k;
  param = param;
  content_length = 3;
  body = some (123 ∷ 125 ∷ []);
}

serve-unauthorized_example :
    serve services
      ((answers, save_config, request [] none)
        ∷ (answers, power, request (97 ∷ []) (some (49 ∷ [])))
        ∷ [])
      app
    ≡ app
serve-unauthorized_example =
    serve-unauthorized services
      ((answers, save_config, request [] none)
        ∷ (answers, power, request (97 ∷ []) (some (49 ∷ [])))
        ∷ [])
      app (refl, (refl, tt))

handle-posted_example :
    handle services answers save_config (posted secret ((123 ∷ []) ∷ (125 ∷ []) ∷ [])) app ≡ (
      if is_authenticated services (posted secret ((123 ∷ []) ∷ (125 ∷ []) ∷ [])) app
      then (if ltb body_max (length (joined ((123 ∷ []) ∷ (125 ∷ []) ∷ [])))
          then (failed 413, app)
          else imported services working (joined ((123 ∷ []) ∷ (125 ∷ []) ∷ [])) app)
      else (unauthorized, app))
handle-posted_example = handle-posted services answers secret (123 ∷ []) ((125 ∷ []) ∷ []) app

abbrev log_name : Bytes
log_name = 108 ∷ 46 ∷ 116 ∷ []

abbrev log_path : Bytes
log_path = 47 ∷ 108 ∷ 111 ∷ 103 ∷ 115 ∷ 47 ∷ log_name

handed_out :
    (handle services answers download (request secret (some log_name)) app).0 ≡ log_file log_path
unfolding handle require_management_auth is_authenticated download_file is_refused
handed_out = refl

handle-HandsOut_example :
    (is_authenticated services (request secret (some log_name)) app ≡ true)
    × HandsOut card_library [] (some log_name) log_path
handle-HandsOut_example =
    handle-HandsOut services answers (request secret (some log_name)) app log_path handed_out
