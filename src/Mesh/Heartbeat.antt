-- ===== src/Mesh/Heartbeat.antt =====
-- From one node to another: what a heartbeat tells its receivers.
use sky_sweep.Prelude.{
  ℕ, ◌<◌, ◌≡◌, ◌≢◌, true, false, some, List, arith, ◌==◌, Bytes, subst, le_number,
}
use sky_sweep.Prelude.Int.{pos}
use sky_sweep.Mesh.Node.{PeerNode, Mesh, touch, on_receive, need_for, frame_size}
use sky_sweep.Mesh.Table.{Represents, hear}
use sky_sweep.Mesh.Receive.{Leaves, after_message, on_receive-hear}
use sky_sweep.Mesh.Send.{heartbeat_bytes, header_bytes, le_bytes}

le_bytes_round : (w : ℕ) → w < 4294967296 → le_number (le_bytes 4 w) ≡ w
le_bytes_round w h = omega arith

-- The entry of a node that was heard alive.
abbrev pub alive : ℕ → ℕ → PeerNode → PeerNode
alive now battery p = record p {
  last_seen = now;
  active = true;
  battery_v = battery;
  activity_level = 0;
}

-- A listening node with a well-formed table and another identifier enters the sender of a
-- heartbeat: an entry under its address, or a new one while fewer than ten are there, becomes
-- active with the time of the message, the sender's 32-bit battery pattern and an activity level of
-- 0, and nothing else of the table changes; with ten other entries the table stays as it was.
pub heartbeat_heard :
    (sender receiver : Mesh) (known : List PeerNode) (mac : Bytes)
    (stamp battery modules added now : ℕ)
    → Represents receiver known
    → receiver.is_instance ≡ true
    → sender.my_node_id ≢ receiver.my_node_id
    → battery < 4294967296
    → Leaves (hear mac sender.my_node_id added (alive now battery) known) (
        on_receive added now receiver
          (some mac)
          (some (heartbeat_bytes sender stamp battery modules))
          (pos frame_size))
unfolding heartbeat_bytes header_bytes touch need_for
heartbeat_heard sender receiver known mac stamp battery modules added now v listens other small =
    let differs : (sender.my_node_id == receiver.my_node_id) ≡ false = ground (arith, other) in
    let message = heartbeat_bytes sender stamp battery modules in
    let heard : after_message added now receiver mac message known
        ≡ hear mac sender.my_node_id added (alive now battery) known =
      rw (listens, differs, le_bytes_round battery small) in
    subst (λ l. Leaves l (on_receive added now receiver (some mac) (some message) (pos frame_size)))
      heard (on_receive-hear added now receiver known mac message v)
