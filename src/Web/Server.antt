-- ===== src/Web/Server.antt =====
-- The state of `SkySweepWebServer`, its start, and what it sends to the dashboards. What the
-- network, the clock and the gauge answer are arguments.
use sky_sweep.Prelude.{
  ℕ, ◌/◌, Bool, true, false, not, ◌||◌, Option, none, some, [], if◌then◌else◌, ◌==◌, leb, take,
  sub32, Bytes,
}
use sky_sweep.Prelude.Int.{ℤ}
use sky_sweep.Config.Storage.{RuntimeConfig}
use sky_sweep.Power.Manager.{PowerMode, read_battery, apply_wifi_policy}
use sky_sweep.Config.Storage
use sky_sweep.Power.Manager

-- `http_server` and `web_socket` are whether these objects exist.
pub record Server : Type 0 where
  pub http_server : Bool
  pub web_socket : Bool
  pub is_running : Bool
  pub last_broadcast_time : ℕ
  pub management_password : Bytes

abbrev pub new_server : Server
new_server = record {
  http_server = false;
  web_socket = false;
  is_running = false;
  last_broadcast_time = 0;
  management_password = [];
}

-- The server with the objects that its handlers use.
pub record App : Type 0 where
  pub server : Server
  pub config : Storage.Manager
  pub power : Manager.Manager

-- `configureNetwork`, for whether the access point starts: the password has room for 63 characters.
unfoldable pub configure_network : Bool → App → Bool × App
configure_network started a =
    let named = record a {
      server = record a.server { management_password = take 63 a.config.cfg.wifi_password };
    } in
    if started then (true, record named { power = apply_wifi_policy a.power }) else (false, named)

unfoldable pub begin : Bool → App → Bool × App
begin started a =
    let (up, b) = configure_network started a in
    if up
    then (
      true,
      record b {
        server = record b.server { http_server = true; web_socket = true; is_running = true };
      },
    )
    else (false, b)

unfoldable pub stop : Server → Server
stop s = record s { http_server = false; web_socket = false; is_running = false }

-- What the dashboards receive, for a type of floating-point numbers.
pub data Message (F : Type 0) : Type 0 where
  status : (uptime heap clients : ℕ) → F → (percent : ℕ) → PowerMode → (minutes : ℕ) → Message F
  rf_data : Bytes → ℤ → Bool → Message F
  drone : Bytes → F → F → F → Message F
  activity_level : Bytes → Bytes → Message F
  system_status : Bytes → Message F

-- What a round of `update` finds: the clock at its four readings, the heap, the clients, the
-- voltage, the percentage of that reading, and the estimate of the runtime.
pub record Observed (F : Type 0) : Type 0 where
  pub tested : ℕ
  pub noted : ℕ
  pub now : ℕ
  pub heap : ℕ
  pub clients : ℕ
  pub voltage : F
  pub percent : Option ℕ
  pub minutes : ℕ

-- `WEB_BROADCAST_INTERVAL_MS` is 500.
unfoldable pub update : {F : Type 0} → Observed F → App → Option (Message F) × App
update o a =
    if not a.server.is_running || not a.server.web_socket
    then (none, a)
    else if leb 500 (sub32 o.tested a.server.last_broadcast_time)
    then (let p = read_battery o.percent a.power in
        (
          some (
              status (o.now / 1000) o.heap o.clients o.voltage p.battery_percent p.current_mode
                o.minutes),
          record a { server = record a.server { last_broadcast_time = o.noted }; power = p },
        ))
    else (none, a)

-- The guard of the four broadcasts.
unfoldable pub broadcast : {F : Type 0} → ℕ → Message F → Server → Option (Message F)
broadcast clients message s =
    if not s.is_running || not s.web_socket || clients == 0 then none else some message

unfoldable pub broadcast_rf_data : {F : Type 0} → ℕ → Bytes → ℤ → Bool → Server → Option (Message F)
broadcast_rf_data clients name rssi active s = broadcast clients (rf_data name rssi active) s

unfoldable pub broadcast_drone_detection :
    {F : Type 0} → ℕ → Bytes → F → F → F → Server → Option (Message F)
broadcast_drone_detection clients id lat lon alt s = broadcast clients (drone id lat lon alt) s

unfoldable pub broadcast_activity_level :
    {F : Type 0} → ℕ → Bytes → Bytes → Server → Option (Message F)
broadcast_activity_level clients level source s = broadcast clients (activity_level level source) s

unfoldable pub broadcast_system_status : {F : Type 0} → ℕ → Bytes → Server → Option (Message F)
broadcast_system_status clients text s = broadcast clients (system_status text) s

unfoldable pub get_connected_clients : ℕ → Server → ℕ
get_connected_clients clients s = if s.web_socket then clients else 0
