-- ===== src/Mesh/Table.antt =====
-- What the peer table means: a list of at most ten entries with distinct addresses.
use sky_sweep.Prelude.{
  ℕ, suc, ◌-◌, ◌≤◌, ◌≡◌, Bool, true, false, ◌||◌, ◌&&◌, List, [], ◌∷◌, ◌++◌, if◌then◌else◌, ltb,
  Bytes, length, replicate, sub32,
}
use sky_sweep.Mesh.Node.{PeerNode, Mesh, empty_peer, max_peers, mac_equals}

abbrev pub has_mac : Bytes → List PeerNode → Bool
has_mac mac [] = false
has_mac mac (p ∷ ps) = mac_equals p.mac_addr mac || has_mac mac ps

abbrev pub Distinct : List PeerNode → Type 0
Distinct [] = Unit
Distinct (p ∷ ps) = (has_mac p.mac_addr ps ≡ false) × Distinct ps

-- The array holds the list and then zeros.
pub record Represents (m : Mesh) (known : List PeerNode) : Type 0 where
  pub table : m.peers ≡ known ++ replicate (max_peers - length known) empty_peer
  pub count : m.peer_count ≡ length known
  pub bounded : length known ≤ max_peers
  pub distinct : Distinct known

-- Change the entry of an address.
abbrev pub change : Bytes → (PeerNode → PeerNode) → List PeerNode → List PeerNode
change mac f [] = []
change mac f (p ∷ ps) = if mac_equals p.mac_addr mac then f p ∷ ps else p ∷ change mac f ps

-- An address that has just been heard for the first time.
abbrev pub fresh : Bytes → ℕ → ℕ → PeerNode
fresh mac id now = record empty_peer {
  mac_addr = mac;
  node_id = id;
  last_seen = now;
  active = true;
}

-- What a message does to the table: its sender's entry is changed, or added while there is room.
abbrev pub hear : Bytes → ℕ → ℕ → (PeerNode → PeerNode) → List PeerNode → List PeerNode
hear mac id now f known =
    if has_mac mac known
    then change mac f known
    else if ltb (length known) max_peers
    then known ++ f (fresh mac id now) ∷ []
    else known

-- An entry that has not been heard for longer than the timeout becomes inactive.
abbrev pub expire : ℕ → ℕ → PeerNode → PeerNode
expire now timeout_ms p =
    if p.active && ltb timeout_ms (sub32 now p.last_seen) then record p { active = false } else p

abbrev pub expire_all : ℕ → (ℕ → ℕ) → ℕ → List PeerNode → List PeerNode
expire_all i clock timeout_ms [] = []
expire_all i clock timeout_ms (p ∷ ps) =
    expire (clock i) timeout_ms p ∷ expire_all (suc i) clock timeout_ms ps

abbrev pub active_in : List PeerNode → ℕ
active_in [] = 0
active_in (p ∷ ps) = if p.active then suc (active_in ps) else active_in ps
