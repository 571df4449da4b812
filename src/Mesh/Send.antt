-- ===== src/Mesh/Send.antt =====
-- The sending half of `ESPNowMesh`, and its life: `begin`, `update`, `stop`. What goes to the radio
-- is a value; the answers of ESP-NOW, the clock and the battery reading are arguments.
use sky_sweep.Prelude.{
  ℕ, zero, suc, ◌+◌, ◌/◌, ◌%◌, Bool, true, false, not, Option, none, some, [], ◌∷◌, ◌++◌,
  if◌then◌else◌, ◌==◌, leb, u16, sub32, Bytes, replicate, ◌>>=◌,
}
use sky_sweep.Mesh.Node.{Mesh, remove_stale, msg_heartbeat, msg_activity_alert, msg_gps_pos}

abbrev pub broadcast_addr : Bytes
broadcast_addr = replicate 6 0xFF

-- A number as `n` little-endian bytes.
abbrev pub le_bytes : ℕ → ℕ → Bytes
le_bytes zero w = []
le_bytes (suc n) w = (w % 256) ∷ le_bytes n (w / 256)

-- What a member function returns, the address and bytes it gave to the radio, and the new state.
pub record Sent : Type 0 where
  pub result : Bool
  pub transmitted : Option (Bytes × Bytes)
  pub mesh : Mesh

-- The header that all three kinds of message share.
unfoldable pub header_bytes : Mesh → ℕ → ℕ → Bytes
header_bytes m type now = type ∷ m.my_node_id ∷ (le_bytes 2 m.sequence_counter ++ le_bytes 4 now)

unfoldable pub broadcast : Bool → Mesh → Bytes → Sent
broadcast sent_ok m bytes =
    if m.initialized
    then record { result = sent_ok; transmitted = some (broadcast_addr, bytes); mesh = m }
    else record { result = false; transmitted = none; mesh = m }

unfoldable pub send_to : Bool → Mesh → Option Bytes → Bytes → Sent
send_to sent_ok m none bytes = record { result = false; transmitted = none; mesh = m }
send_to sent_ok m (some mac) bytes =
    if m.initialized
    then record { result = sent_ok; transmitted = some (mac, bytes); mesh = m }
    else record { result = false; transmitted = none; mesh = m }

-- `sequenceCounter++`
abbrev pub next_sequence : Mesh → Mesh
next_sequence m = record m { sequence_counter = u16 (m.sequence_counter + 1) }

-- `batteryV` at offset 8, `activityLevel` at 12, `activeModules` at 13.
unfoldable pub heartbeat_bytes : Mesh → ℕ → ℕ → ℕ → Bytes
unfolding header_bytes
heartbeat_bytes m now battery modules =
    header_bytes m msg_heartbeat now ++ (le_bytes 4 battery ++ 0 ∷ modules ∷ replicate 194 0)

unfoldable pub send_heartbeat : Bool → ℕ → ℕ → ℕ → Mesh → Sent
send_heartbeat sent_ok now battery modules m =
    broadcast sent_ok (next_sequence m) (heartbeat_bytes m now battery modules)

unfoldable pub send_activity_alert : Bool → ℕ → ℕ → ℕ → ℕ → ℕ → ℕ → Mesh → Sent
send_activity_alert sent_ok now normalized_rssi band level lat lon m =
    broadcast sent_ok (next_sequence m) (
      header_bytes m msg_activity_alert now
      ++ normalized_rssi
        ∷ band
        ∷ level
        ∷ 0
        ∷ (le_bytes 4 lat ++ (le_bytes 4 lon ++ replicate 188 0)))

unfoldable pub send_gps_position : Bool → ℕ → ℕ → ℕ → ℕ → ℕ → Mesh → Sent
send_gps_position sent_ok now lat lon alt sats m = broadcast sent_ok (next_sequence m) (
    header_bytes m msg_gps_pos now
    ++ (le_bytes 8 lat ++ (le_bytes 8 lon ++ (le_bytes 4 alt ++ sats ∷ replicate 179 0))))

-- `begin`: `own_mac` is the last byte of the station's address.
unfoldable pub begin : Bool → Bool → ℕ → ℕ → ℕ → ℕ → ℕ → Mesh → Sent
begin init_ok sent_ok own_mac now battery modules node_id m =
    let named = record m {
      is_instance = true;
      my_node_id = if node_id == 0 then own_mac else node_id;
    } in
    if init_ok
    then (let sent =
          send_heartbeat sent_ok now battery modules (record named { initialized = true }) in
        record sent { result = true })
    else record { result = false; transmitted = none; mesh = named }

unfoldable pub stop : Mesh → Mesh
stop m = if m.initialized then record m { initialized = false; is_instance = false } else m

-- The readings of the clock in one `update`: the test, the message, the note of its time, and the
-- rounds of `removeStale`.
pub record Clock : Type 0 where
  pub tested : ℕ
  pub stamped : ℕ
  pub noted : ℕ
  pub rounds : ℕ → ℕ

unfoldable pub update : Bool → Clock → ℕ → ℕ → Mesh → Option (Option (Bytes × Bytes) × Mesh)
update sent_ok clock battery modules m =
    if not m.initialized
    then some (none, m)
    else if leb m.heartbeat_interval_ms (sub32 clock.tested m.last_heartbeat)
    then (let sent = send_heartbeat sent_ok clock.stamped battery modules m in
        remove_stale clock.rounds 60000 (record (sent.mesh) { last_heartbeat = clock.noted })
        >>= λ n. some (sent.transmitted, n))
    else (remove_stale clock.rounds 60000 m >>= λ n. some (none, n))
