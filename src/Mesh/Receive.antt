-- ===== src/Mesh/Receive.antt =====
-- What a received message does to the peer table, on every branch of `onReceiveCB`.
use mathlib.Core.List.{append_assoc}
use sky_sweep.Prelude.{
  ℕ, zero, suc, ◌+◌, ◌-◌, ◌≤◌, ◌<◌, ◌≡◌, refl, sym, ap, ◌∙◌, inl, inr, Bool, true, false, not, ◌||◌,
  Option, some, List, [], ◌∷◌, ◌++◌, arith, if◌then◌else◌, Bool-cases, ◌==◌, ltb, leb, ltb→lt, u8,
  u32, Bytes, length, get_or, get_elem?, take, drop, replicate, store, copy, copy-some, store-some,
  ◌>>=◌, length-append, get_elem?-append_length, get_elem?-append_left, get_elem?-eq-get_or,
  set-append_length, set-append_left,
}
use sky_sweep.Prelude.Int.{pos}
use sky_sweep.Mesh.Node.{
  PeerNode, Mesh, empty_peer, max_peers, header_size, frame_size, msg_heartbeat, find_peer,
  find_peer_from, add_peer, touch, touch_peer, touch_found, touch_added, battery_in, handle_message,
  need_for, receive_frame, on_receive,
}
use sky_sweep.Mesh.Table.{has_mac, Represents, change, fresh, hear}
use sky_sweep.Mesh.Lookup.{
  index_of, at_start, find_peer_from-index_of, index_of-absent, index_of-present, Located,
  change-Distinct, length-change, snoc-Distinct,
}

-- The first `n` bytes, with zeros behind a shorter list.
abbrev pub pad : ℕ → Bytes → Bytes
pad zero bs = []
pad (suc n) [] = 0 ∷ pad n []
pad (suc n) (b ∷ bs) = b ∷ pad n bs

length-pad : (n : ℕ) (bs : Bytes) → length (pad n bs) ≡ n
length-pad zero bs = refl
length-pad (suc n) [] = ap suc (length-pad n [])
length-pad (suc n) (b ∷ bs) = ap suc (length-pad n bs)

zeros-pad : (n : ℕ) → replicate n 0 ≡ pad n []
zeros-pad zero = refl
zeros-pad (suc n) = ap (◌∷◌ 0) (zeros-pad n)

copied-pad :
    (n k : ℕ) (bs : Bytes)
    → k ≡ (if ltb n (length bs) then n else length bs)
    → take k bs ++ drop k (replicate n 0) ≡ pad n bs
copied-pad zero zero bs e = refl
copied-pad zero (suc k) bs e = absurd (ground (arith, e))
copied-pad (suc n) zero [] e = zeros-pad (suc n)
copied-pad (suc n) (suc k) [] e = absurd (ground (arith, e))
copied-pad (suc n) zero (b ∷ bs) e = absurd (ground (arith, e))
copied-pad (suc n) (suc k) (b ∷ bs) e = ap (◌∷◌ b) (copied-pad n k bs (ground (arith, e)))

-- What the handler writes for a frame.
abbrev pub noted : ℕ → Bytes → PeerNode → PeerNode
noted now frame = touch now (get_or frame 0 0) (battery_in frame) (get_or frame 12 0)

touch_keeps :
    (now type battery level : ℕ) (p : PeerNode)
    → (touch now type battery level p).mac_addr ≡ p.mac_addr
unfolding touch
touch_keeps now type battery level p = elim (Bool-cases (type == msg_heartbeat)) [
  | inl heartbeat ↦ rw heartbeat
  | inr other ↦ rw other
]

-- `result` is a normal return whose table stands for the list.
pub record Leaves (known : List PeerNode) (result : Option Mesh) : Type 0 where
  pub next : Mesh
  pub returns : result ≡ some next
  pub stands : Represents next known

module _ (now : ℕ) (frame : Bytes) (size : length frame ≡ frame_size) where
  at_byte : (i : ℕ) → i < frame_size → get_elem? frame i ≡ some (get_or frame i 0)
  at_byte i h = get_elem?-eq-get_or frame i 0 (omega arith)

  touch_peer-change :
      (m : Mesh) (known : List PeerNode) (mac : Bytes)
      → Represents m known
      → (l : Located mac 0 known)
      → Leaves (change mac (noted now frame) known) (touch_peer now m l.offset frame)
  unfolding touch_peer
  touch_peer-change m known mac v l =
      let zeros = replicate (max_peers - length known) empty_peer in
      let f = noted now frame in
      let keeps = touch_keeps now (get_or frame 0 0) (battery_in frame) (get_or frame 12 0) in
      record {
        next = record m { peers = change mac f known ++ zeros };
        returns = rw (
          v.table,
          get_elem?-append_left known zeros l.offset l.inside,
          l.read,
          at_byte 0 (omega arith),
          at_byte 12 (omega arith),
          store-some (known ++ zeros) l.offset (f l.peer)
              (omega (arith, length-append known zeros, l.inside)),
          set-append_left known zeros l.offset (f l.peer) l.inside,
          l.written f,
        );
        stands = record {
          table = rw (length-change mac f keeps known);
          count = v.count ∙ sym (length-change mac f keeps known);
          bounded = omega (arith, length-change mac f keeps known, v.bounded);
          distinct = change-Distinct mac f keeps known v.distinct;
        };
      }

  write_behind :
      (known : List PeerNode) (y v : PeerNode) (rest : List PeerNode) (i : ℕ)
      → i ≡ length known
      → store (known ++ y ∷ rest) i v ≡ some (known ++ v ∷ rest)
  write_behind known y v rest i e = rw e (
      store-some (known ++ y ∷ rest) (length known) v
        (omega (arith, length-append known (y ∷ rest)))
      ∙ ap some (set-append_length known y rest v))

  -- A sender that is not in the table, and room for it.
  add_touch :
      (added : ℕ) (m : Mesh) (known : List PeerNode) (mac : Bytes) (node : ℕ)
      → Represents m known
      → has_mac mac known ≡ false
      → length known < max_peers
      → Leaves
          (known ++ noted now frame (fresh mac node added) ∷ [])
          (add_peer added m mac node >>= touch_added now frame)
  unfolding add_peer touch_peer
  add_touch added m known mac node v absent room =
      let rest = replicate (max_peers - suc (length known)) empty_peer in
      let f = noted now frame in
      let left : max_peers - length known ≡ suc (max_peers - suc (length known)) = omega arith in
      let table : m.peers ≡ known ++ empty_peer ∷ rest =
        v.table ∙ ap (λ n. known ++ replicate n empty_peer) left in
      let at_count : (y : PeerNode) → get_elem? (known ++ y ∷ rest) m.peer_count ≡ some y =
        λ y. get_elem?-append_length known y rest m.peer_count (sym v.count) in
      let longer : length (known ++ f (fresh mac node added) ∷ []) ≡ suc (length known) =
        omega (arith, length-append known (f (fresh mac node added) ∷ [])) in
      let mac_kept : (f (fresh mac node added)).mac_addr ≡ mac =
        touch_keeps now (get_or frame 0 0) (battery_in frame) (get_or frame 12 0)
          (fresh mac node added) in
      record {
        next = record m {
          peers = known ++ f (fresh mac node added) ∷ rest;
          peer_count = suc (length known);
        };
        returns = rw (
          leb_room m known v room,
          table,
          at_count empty_peer,
          write_behind known empty_peer (fresh mac node added) rest m.peer_count v.count,
          at_count (fresh mac node added),
          at_byte 0 (omega arith),
          at_byte 12 (omega arith),
          write_behind known (fresh mac node added) (f (fresh mac node added)) rest m.peer_count
              v.count,
          small_count m known v room,
        );
        stands = record {
          table = rw longer (sym (append_assoc known (f (fresh mac node added) ∷ []) rest));
          count = sym longer;
          bounded = omega arith;
          distinct = snoc-Distinct known (f (fresh mac node added)) v.distinct (rw mac_kept absent);
        };
      }
    where
      leb_room :
          (m : Mesh) (known : List PeerNode)
          → Represents m known
          → length known < max_peers
          → leb max_peers m.peer_count ≡ false
      leb_room m known v room = ground (arith, v.count)

      small_count :
          (m : Mesh) (known : List PeerNode)
          → Represents m known
          → length known < max_peers
          → u8 (m.peer_count + 1) ≡ suc (length known)
      small_count m known v room = omega (arith, v.count)

  -- The sender's entry is written, be it old or new.
  hear_touch :
      (added : ℕ) (m : Mesh) (known : List PeerNode) (mac : Bytes) (node : ℕ)
      → Represents m known
      → Leaves
          (hear mac node added (noted now frame) known)
          (find_peer m mac >>= touch_found added now m mac frame node)
  unfolding find_peer add_peer
  hear_touch added m known mac node v =
      let zeros = replicate (max_peers - length known) empty_peer in
      let looked_up : find_peer_from m.peer_count 0 m.peers mac ≡ some (index_of mac 0 known) =
        rw (v.count, v.table)
          (find_peer_from-index_of known (known ++ zeros) 0 mac (at_start known zeros)) in
      rw looked_up (elim (Bool-cases (has_mac mac known)) [
        | inl held ↦
            let l = index_of-present mac 0 known held in
            let at : index_of mac 0 known ≡ some l.offset = l.found ∙ ap some (omega arith) in
            rw (held, at) (touch_peer-change m known mac v l)
        | inr absent ↦ rw (absent, index_of-absent mac 0 known absent) (room m absent v)
      ])
    where
      room :
          (m : Mesh)
          → has_mac mac known ≡ false
          → Represents m known
          → Leaves
              (if ltb (length known) max_peers
                then known ++ noted now frame (fresh mac node added) ∷ []
                else known)
              (add_peer added m mac node >>= touch_added now frame)
      room m absent v = elim (Bool-cases (ltb (length known) max_peers)) [
        | inl free ↦ rw free (add_touch added m known mac node v absent (ltb→lt _ _ free))
        | inr full ↦
            let count : leb max_peers m.peer_count ≡ true = ground (arith, v.count, full) in
            rw (full, count) (record { next = m; returns = refl; stands = v })
      ]

  handle_message-hear :
      (added : ℕ) (m : Mesh) (known : List PeerNode) (mac : Bytes)
      → Represents m known
      → Leaves
          (if get_or frame 1 0 == m.my_node_id
            then known
            else hear mac (get_or frame 1 0) added (noted now frame) known)
          (handle_message added now m mac frame)
  unfolding handle_message
  handle_message-hear added m known mac v =
      let counted : Mesh = record m { msg_received = u32 (m.msg_received + 1) } in
      let w : Represents counted known = record {
        table = v.table;
        count = v.count;
        bounded = v.bounded;
        distinct = v.distinct;
      } in
      rw (at_byte 1 (omega arith)) (elim (Bool-cases (get_or frame 1 0 == m.my_node_id)) [
        | inl own ↦ rw own (record { next = counted; returns = refl; stands = w })
        | inr other ↦ rw other (hear_touch added counted known mac (get_or frame 1 0) w)
      ])

-- A message that is cut off before the fields of its type.
abbrev pub is_cut_off : Bytes → Bool
is_cut_off bytes =
    ltb (length bytes) header_size || ltb (length bytes) (need_for (get_or bytes 0 0))

-- The list after a message: unchanged when nobody listens, when the message is cut off, or when it
-- is the node's own; else the sender is heard.
abbrev pub after_message : ℕ → ℕ → Mesh → Bytes → Bytes → List PeerNode → List PeerNode
after_message added now m mac bytes known =
    let frame = pad frame_size bytes in
    if not m.is_instance || is_cut_off bytes
    then known
    else if get_or frame 1 0 == m.my_node_id
    then known
    else hear mac (get_or frame 1 0) added (noted now frame) known

-- What `onReceiveCB` copies into its zeroed frame.
copied :
    (bytes : Bytes)
    → copy
        (replicate frame_size 0)
        bytes
        0
        (if ltb frame_size (length bytes) then frame_size else length bytes)
      ≡ some (pad frame_size bytes)
copied bytes =
    let size = if ltb frame_size (length bytes) then frame_size else length bytes in
    copy-some (replicate frame_size 0) bytes 0 size (ground arith) (ground arith)
    ∙ ap some (copied-pad frame_size size bytes refl)

-- onReceiveCB with any bytes of their true length returns, reads nothing outside them, and leaves a
-- table that stands for the list of peers after the message (unchanged if nobody listens, the
-- message is cut off or the node is its sender; else the sender is changed or, while there is room,
-- added), with at most ten entries of distinct addresses.
pub on_receive-hear :
    (added now : ℕ) (m : Mesh) (known : List PeerNode) (mac bytes : Bytes)
    → Represents m known
    → Leaves
        (after_message added now m mac bytes known)
        (on_receive added now m (some mac) (some bytes) (pos (length bytes)))
unfolding on_receive receive_frame
on_receive-hear added now m known mac bytes v =
    elim (Bool-cases (not m.is_instance || ltb (length bytes) header_size)) [
      | inl ignored ↦
          let stop : (not m.is_instance || is_cut_off bytes) ≡ true = ground (arith, ignored) in
          rw (ignored, stop) (record { next = m; returns = refl; stands = v })
      | inr header ↦
          let long : header_size ≤ length bytes = ground (arith, header) in
          rw (header, get_elem?-eq-get_or bytes 0 0 (omega (arith, long)))
            (elim (Bool-cases (ltb (length bytes) (need_for (get_or bytes 0 0)))) [
              | inl cut ↦
                  let stop : (not m.is_instance || is_cut_off bytes) ≡ true = ground (arith, cut) in
                  rw (stop, cut) (record { next = m; returns = refl; stands = v })
              | inr whole ↦
                  let listen : (not m.is_instance || is_cut_off bytes) ≡ false =
                    ground (arith, header, whole) in
                  rw (listen, whole, copied bytes)
                    (handle_message-hear now (pad frame_size bytes) (length-pad frame_size bytes)
                      added m known mac v)
            ])
    ]
