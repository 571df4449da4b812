-- ===== src/Mesh/Sending.antt =====
-- What sends, and what counts, leaves the table of peers as it was.
use sky_sweep.Prelude.{
  ℕ, ◌≡◌, refl, ◌∙◌, inl, inr, Bool, true, false, Bool-cases, Option, some, List, leb, sub32, Bytes,
}
use sky_sweep.Mesh.Node.{PeerNode, Mesh, on_send}
use sky_sweep.Mesh.Table.{Represents}
use sky_sweep.Mesh.Expiry.{remove_stale-expire_all}
use sky_sweep.Mesh.Send.{Clock, broadcast, send_heartbeat, send_activity_alert, begin, update}

same_table :
    (m n : Mesh) (known : List PeerNode)
    → n.peers ≡ m.peers
    → n.peer_count ≡ m.peer_count
    → Represents m known
    → Represents n known
same_table m n known p c v = record {
  table = p ∙ v.table;
  count = c ∙ v.count;
  bounded = v.bounded;
  distinct = v.distinct;
}

broadcast-mesh : (ok : Bool) (m : Mesh) (bytes : Bytes) → (broadcast ok m bytes).mesh ≡ m
unfolding broadcast
broadcast-mesh ok m bytes = elim (Bool-cases m.initialized) [
  | inl on ↦ rw on refl
  | inr off ↦ rw off refl
]

module _ (m : Mesh) (known : List PeerNode) (v : Represents m known) where
  pub send_heartbeat-Represents :
      (ok : Bool) (now battery modules : ℕ)
      → Represents (send_heartbeat ok now battery modules m).mesh known
  unfolding send_heartbeat
  send_heartbeat-Represents ok now battery modules =
      rw (broadcast-mesh ok _ _) (same_table m _ known refl refl v)

  pub send_activity_alert-Represents :
      (ok : Bool) (now rssi band level lat lon : ℕ)
      → Represents (send_activity_alert ok now rssi band level lat lon m).mesh known
  unfolding send_activity_alert
  send_activity_alert-Represents ok now rssi band level lat lon =
      rw (broadcast-mesh ok _ _) (same_table m _ known refl refl v)

  pub on_send-Represents : (success : Bool) → Represents (on_send m success) known
  unfolding on_send
  on_send-Represents success = elim (Bool-cases m.is_instance) [
    | inr missing ↦ simp missing v
    | inl there ↦ elim (Bool-cases success) [
      | inl done ↦ simp (there, done) (same_table m _ known refl refl v)
      | inr failed ↦ simp (there, failed) (same_table m _ known refl refl v)
    ]
  ]

pub begin-Represents :
    (up ok : Bool) (own_mac now battery modules node_id : ℕ) (m : Mesh) (known : List PeerNode)
    → Represents m known
    → Represents (begin up ok own_mac now battery modules node_id m).mesh known
unfolding begin
begin-Represents true ok own_mac now battery modules node_id m known v =
    send_heartbeat-Represents _ known (same_table m _ known refl refl v) ok now battery modules
begin-Represents false ok own_mac now battery modules node_id m known v =
    same_table m _ known refl refl v

-- `update` returns, and its table stands for a list of peers.
pub record Updates (r : Option (Option (Bytes × Bytes) × Mesh)) : Type 0 where
  pub message : Option (Bytes × Bytes)
  pub next : Mesh
  pub returns : r ≡ some (message, next)
  pub known : List PeerNode
  pub stands : Represents next known

pub update-Updates :
    (ok : Bool) (clock : Clock) (battery modules : ℕ) (m : Mesh) (known : List PeerNode)
    → Represents m known
    → Updates (update ok clock battery modules m)
unfolding update
update-Updates ok clock battery modules m known v = elim (Bool-cases m.initialized) [
  | inr off ↦ simp off (record { message = _; next = m; returns = refl; known = known; stands = v })
  | inl on ↦ elim (Bool-cases (leb m.heartbeat_interval_ms (sub32 clock.tested m.last_heartbeat))) [
    | inr early ↦
        let l = remove_stale-expire_all clock.rounds 60000 m known v in
        simp (on, early, l.returns)
          (record { message = _; next = l.next; returns = refl; known = _; stands = l.stands })
    | inl due ↦
        let sent = send_heartbeat ok clock.stamped battery modules m in
        let kept = send_heartbeat-Represents m known v ok clock.stamped battery modules in
        let l =
          remove_stale-expire_all clock.rounds 60000
            (record (sent.mesh) { last_heartbeat = clock.noted }) known
            (same_table (sent.mesh) _ known refl refl kept) in
        simp (on, due, l.returns)
          (record { message = _; next = l.next; returns = refl; known = _; stands = l.stands })
  ]
]
