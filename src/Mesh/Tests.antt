-- ===== src/Mesh/Tests.antt =====
-- Tests of the mesh node, and its theorems at concrete inputs.
use sky_sweep.Prelude.{refl, false, true, some, [], ◌∷◌, arith, Bytes, replicate}
use sky_sweep.Prelude.Int.{pos}
use sky_sweep.Mesh.Node.{PeerNode, Mesh, new_mesh, empty_peer, on_receive, remove_stale, frame_size}
use sky_sweep.Mesh.Table.{Represents, hear}
use sky_sweep.Mesh.Receive.{Leaves, after_message, on_receive-hear}
use sky_sweep.Mesh.Expiry.{remove_stale-expire_all}
use sky_sweep.Mesh.Send.{heartbeat_bytes}
use sky_sweep.Mesh.Heartbeat.{alive, heartbeat_heard}

abbrev other_mac : Bytes
other_mac = 2 ∷ 0 ∷ 0 ∷ 0 ∷ 0 ∷ 9 ∷ []

abbrev neighbour : PeerNode
neighbour = record empty_peer { mac_addr = other_mac; node_id = 9; last_seen = 100; active = true }

abbrev node : Mesh
node = record new_mesh {
  is_instance = true;
  my_node_id = 5;
  initialized = true;
  peers = neighbour ∷ replicate 9 empty_peer;
  peer_count = 1;
}

node-Represents : Represents node (neighbour ∷ [])
node-Represents = record {
  table = refl;
  count = refl;
  bounded = omega arith;
  distinct = (refl, tt);
}

-- A heartbeat header whose payload is missing.
abbrev cut : Bytes
cut = 1 ∷ 9 ∷ 0 ∷ 0 ∷ 0 ∷ 0 ∷ 0 ∷ 0 ∷ 1 ∷ []

on_receive-hear_example :
    Leaves
      (after_message 200 201 node other_mac cut (neighbour ∷ []))
      (on_receive 200 201 node (some other_mac) (some cut) (pos 9))
on_receive-hear_example =
    on_receive-hear 200 201 node (neighbour ∷ []) other_mac cut node-Represents

-- The clock has wrapped round since the neighbour was heard.
remove_stale-expire_all_example :
    Leaves (record neighbour { active = false } ∷ []) (remove_stale (λ i. 50) 60000 node)
remove_stale-expire_all_example =
    remove_stale-expire_all (λ i. 50) 60000 node (neighbour ∷ []) node-Represents

abbrev sender : Mesh
sender = record new_mesh { my_node_id = 9; initialized = true; sequence_counter = 300 }

heartbeat_heard_example : Leaves (hear other_mac 9 7 (alive 8 1082130432) (neighbour ∷ [])) (
    on_receive 7 8 node
      (some other_mac)
      (some (heartbeat_bytes sender 6 1082130432 3))
      (pos frame_size))
heartbeat_heard_example =
    heartbeat_heard sender node (neighbour ∷ []) other_mac 6 1082130432 3 7 8 node-Represents refl
      (omega arith) (omega arith)
