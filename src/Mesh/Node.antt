-- ===== src/Mesh/Node.antt =====
-- `ESPNowMesh`: the peer table and the handlers. A `float` is its 32-bit pattern, a message from
-- the radio is its bytes, a reading of `millis()` and an answer of ESP-NOW is an argument. An
-- access outside an array is the fault `none`.
use sky_sweep.Prelude.{
  ℕ, zero, suc, ◌+◌, Bool, true, false, not, ◌&&◌, ◌||◌, Option, none, some, List, [], ◌∷◌,
  if◌then◌else◌, ◌==◌, ltb, leb, u8, u32, sub32, Bytes, replicate, load, store, copy, ◌>>=◌,
  le_number, take, drop,
}
use sky_sweep.Prelude.Int.{ℤ, pos, negsuc}

abbrev pub max_peers : ℕ
max_peers = 10

abbrev pub msg_heartbeat : ℕ
msg_heartbeat = 1

abbrev pub msg_activity_alert : ℕ
msg_activity_alert = 2

abbrev pub msg_gps_pos : ℕ
msg_gps_pos = 4

-- Where the payload begins, and the size of `ESPNowMessage`.
abbrev pub header_size : ℕ
header_size = 8

abbrev pub frame_size : ℕ
frame_size = 208

-- `PeerNode`
pub record PeerNode : Type 0 where
  pub mac_addr : Bytes
  pub node_id : ℕ
  pub last_seen : ℕ
  pub battery_v : ℕ
  pub activity_level : ℕ
  pub active : Bool

-- The fields of `ESPNowMesh`; `is_instance` says whether the static `instance` points to it.
pub record Mesh : Type 0 where
  pub is_instance : Bool
  pub my_node_id : ℕ
  pub sequence_counter : ℕ
  pub peers : List PeerNode
  pub peer_count : ℕ
  pub initialized : Bool
  pub last_heartbeat : ℕ
  pub heartbeat_interval_ms : ℕ
  pub msg_sent : ℕ
  pub msg_received : ℕ
  pub msg_failed : ℕ

abbrev pub empty_peer : PeerNode
empty_peer = record {
  mac_addr = replicate 6 0;
  node_id = 0;
  last_seen = 0;
  battery_v = 0;
  activity_level = 0;
  active = false;
}

-- The constructor.
abbrev pub new_mesh : Mesh
new_mesh = record {
  is_instance = false;
  my_node_id = 0;
  sequence_counter = 0;
  peers = replicate max_peers empty_peer;
  peer_count = 0;
  initialized = false;
  last_heartbeat = 0;
  heartbeat_interval_ms = 15000;
  msg_sent = 0;
  msg_received = 0;
  msg_failed = 0;
}

-- `memcmp(a, b, 6) == 0`, for addresses of six bytes.
abbrev pub mac_equals : Bytes → Bytes → Bool
mac_equals [] [] = true
mac_equals (a ∷ xs) (b ∷ ys) = (a == b) && mac_equals xs ys
mac_equals [] (b ∷ ys) = false
mac_equals (a ∷ xs) [] = false

-- The loop of `findPeer` from entry `i`, with the rounds that are left; `some none` is -1.
unfoldable pub find_peer_from : ℕ → ℕ → List PeerNode → Bytes → Option (Option ℕ)
find_peer_from zero i peers mac = some none
find_peer_from (suc n) i peers mac = load peers i >>= λ peer.
    (if mac_equals peer.mac_addr mac then some (some i) else find_peer_from n (suc i) peers mac)

unfoldable pub find_peer : Mesh → Bytes → Option (Option ℕ)
find_peer m mac = find_peer_from m.peer_count 0 m.peers mac

-- The new entry keeps what the slot held in the fields that are not written.
unfoldable pub add_peer : ℕ → Mesh → Bytes → ℕ → Option (Option ℕ × Mesh)
add_peer now m mac id = if leb max_peers m.peer_count then some (none, m) else (do
  slot ← load m.peers m.peer_count
  peers ←
      store m.peers m.peer_count
        (record slot { mac_addr = mac; node_id = id; last_seen = now; active = true })
  some (some m.peer_count, record m { peers = peers; peer_count = u8 (m.peer_count + 1) }))

-- The fields of a received frame that are used.
abbrev pub battery_in : Bytes → ℕ
battery_in frame = le_number (take 4 (drop 8 frame))

-- The writes to the entry of the sender.
unfoldable pub touch : ℕ → ℕ → ℕ → ℕ → PeerNode → PeerNode
touch now type battery level peer =
    if type == msg_heartbeat
    then record peer { last_seen = now; active = true; battery_v = battery; activity_level = level }
    else record peer { last_seen = now; active = true }

-- The part of `handleMessage` after the entry has been looked up or added.
unfoldable pub touch_peer : ℕ → Mesh → ℕ → Bytes → Option Mesh
touch_peer now m i frame = do
  peer ← load m.peers i
  type ← load frame 0
  level ← load frame 12
  peers ← store m.peers i (touch now type (battery_in frame) level peer)
  some (record m { peers = peers })

abbrev pub touch_added : ℕ → Bytes → Option ℕ × Mesh → Option Mesh
touch_added now frame (none, m) = some m
touch_added now frame (some i, m) = touch_peer now m i frame

abbrev pub touch_found : ℕ → ℕ → Mesh → Bytes → Bytes → ℕ → Option ℕ → Option Mesh
touch_found added now m mac frame id (some i) = touch_peer now m i frame
touch_found added now m mac frame id none = add_peer added m mac id >>= touch_added now frame

-- `added` and `now` are the two readings of the clock.
unfoldable pub handle_message : ℕ → ℕ → Mesh → Bytes → Bytes → Option Mesh
handle_message added now m mac frame = do
  id ← load frame 1
  let counted = record m { msg_received = u32 (m.msg_received + 1) }
  if id == m.my_node_id
      then some counted
      else (find_peer counted mac >>= touch_found added now counted mac frame id)

-- `need`, from the message type.
unfoldable pub need_for : ℕ → ℕ
need_for type =
    if type == msg_heartbeat
    then header_size + 8
    else if type == msg_activity_alert
    then header_size + 12
    else if type == msg_gps_pos
    then header_size + 24
    else header_size

-- `onReceiveCB` once the pointers and the header have been checked.
unfoldable pub receive_frame : ℕ → ℕ → Mesh → Bytes → Bytes → ℕ → Option Mesh
receive_frame added now m mac bytes len = do
  type ← load bytes 0
  if ltb len (need_for type) then some m else (do
    frame ← copy (replicate frame_size 0) bytes 0 (if ltb frame_size len then frame_size else len)
    handle_message added now m mac frame)

-- `onReceiveCB`; a null pointer is `none`.
unfoldable pub on_receive : ℕ → ℕ → Mesh → Option Bytes → Option Bytes → ℤ → Option Mesh
on_receive added now m none bytes len = some m
on_receive added now m (some mac) none len = some m
on_receive added now m (some mac) (some bytes) (negsuc _) = some m
on_receive added now m (some mac) (some bytes) (pos len) =
    if not m.is_instance || ltb len header_size
    then some m
    else receive_frame added now m mac bytes len

unfoldable pub on_send : Mesh → Bool → Mesh
on_send m success =
    if m.is_instance
    then (if success
        then record m { msg_sent = u32 (m.msg_sent + 1) }
        else record m { msg_failed = u32 (m.msg_failed + 1) })
    else m

-- The test and the write of `removeStale` for one entry.
unfoldable pub is_stale : ℕ → ℕ → PeerNode → Bool
is_stale now timeout_ms peer = peer.active && ltb timeout_ms (sub32 now peer.last_seen)

-- The loop of `removeStale` from entry `i`; `clock i` is the reading in round `i`.
unfoldable pub remove_stale_from : ℕ → ℕ → (ℕ → ℕ) → ℕ → List PeerNode → Option (List PeerNode)
remove_stale_from zero i clock timeout_ms peers = some peers
remove_stale_from (suc n) i clock timeout_ms peers = do
  peer ← load peers i
  next ←
      (if is_stale (clock i) timeout_ms peer
        then store peers i (record peer { active = false })
        else some peers)
  remove_stale_from n (suc i) clock timeout_ms next

unfoldable pub remove_stale : (ℕ → ℕ) → ℕ → Mesh → Option Mesh
remove_stale clock timeout_ms m =
    remove_stale_from m.peer_count 0 clock timeout_ms m.peers >>= λ peers.
    some (record m { peers = peers })

-- The loop of `getActivePeerCount`.
unfoldable pub count_active_from : ℕ → ℕ → ℕ → List PeerNode → Option ℕ
count_active_from zero i count peers = some count
count_active_from (suc n) i count peers = load peers i >>= λ peer.
    count_active_from n (suc i) (if peer.active then u8 (count + 1) else count) peers

unfoldable pub get_active_peer_count : Mesh → Option ℕ
get_active_peer_count m = count_active_from m.peer_count 0 0 m.peers
