-- ===== src/Mesh/Lookup.antt =====
-- The loops over the peer table, on the list that the table stands for.
use sky_sweep.Prelude.{
  ℕ, suc, ◌+◌, ◌<◌, ◌≡◌, refl, ap, ◌∙◌, inl, inr, true, false, Option, none, some, List, [], ◌∷◌,
  ◌++◌, arith, if◌then◌else◌, Bool-cases, ◌==◌, Bytes, length, get_elem?, set,
  get_elem?-append_left,
}
use sky_sweep.Mesh.Node.{PeerNode, mac_equals, find_peer_from}
use sky_sweep.Mesh.Table.{has_mac, change, Distinct}

pub mac_equals_sym : (xs ys : Bytes) → mac_equals xs ys ≡ mac_equals ys xs
mac_equals_sym [] [] = refl
mac_equals_sym [] (y ∷ ys) = refl
mac_equals_sym (x ∷ xs) [] = refl
mac_equals_sym (x ∷ xs) (y ∷ ys) =
    let head : (x == y) ≡ (y == x) = ground arith in rw (head, mac_equals_sym xs ys)

pub at_start :
    (xs ys : List PeerNode) (j : ℕ) → j < length xs → get_elem? (xs ++ ys) (0 + j) ≡ get_elem? xs j
at_start xs ys j h = ap (get_elem? (xs ++ ys)) (omega arith) ∙ get_elem?-append_left xs ys j h

-- The first position of an address, from position `i`.
abbrev pub index_of : Bytes → ℕ → List PeerNode → Option ℕ
index_of mac i [] = none
index_of mac i (p ∷ ps) = if mac_equals p.mac_addr mac then some i else index_of mac (suc i) ps

pub find_peer_from-index_of :
    (xs peers : List PeerNode) (i : ℕ) (mac : Bytes)
    → ((j : ℕ) → j < length xs → get_elem? peers (i + j) ≡ get_elem? xs j)
    → find_peer_from (length xs) i peers mac ≡ some (index_of mac i xs)
unfolding find_peer_from
find_peer_from-index_of [] peers i mac at = refl
find_peer_from-index_of (x ∷ xs) peers i mac at =
    let first : get_elem? peers i ≡ some x =
      ap (get_elem? peers) (omega arith) ∙ at 0 (omega arith) in
    let rest : (j : ℕ) → j < length xs → get_elem? peers (suc i + j) ≡ get_elem? xs j =
      λ j h. ap (get_elem? peers) (omega arith) ∙ at (suc j) (omega arith) in
    rw first (elim (Bool-cases (mac_equals x.mac_addr mac)) [
      | inl same ↦ rw same
      | inr other ↦ rw other (find_peer_from-index_of xs peers (suc i) mac rest)
    ])

-- An address that the list does not hold is not found.
pub index_of-absent :
    (mac : Bytes) (i : ℕ) (xs : List PeerNode) → has_mac mac xs ≡ false → index_of mac i xs ≡ none
index_of-absent mac i [] h = refl
index_of-absent mac i (x ∷ xs) h = elim (Bool-cases (mac_equals x.mac_addr mac)) [
  | inl same ↦ absurd (ground (arith, h))
  | inr other ↦ rw other (index_of-absent mac (suc i) xs (rw other at h))
]

-- An address that the list holds is found, and a write to its entry is `change`.
pub record Located (mac : Bytes) (i : ℕ) (xs : List PeerNode) : Type 0 where
  pub offset : ℕ
  pub peer : PeerNode
  pub found : index_of mac i xs ≡ some (i + offset)
  pub inside : offset < length xs
  pub read : get_elem? xs offset ≡ some peer
  pub written : (f : PeerNode → PeerNode) → set xs offset (f peer) ≡ change mac f xs

pub index_of-present :
    (mac : Bytes) (i : ℕ) (xs : List PeerNode) → has_mac mac xs ≡ true → Located mac i xs
index_of-present mac i [] h = absurd (ground (arith, h))
index_of-present mac i (x ∷ xs) h = elim (Bool-cases (mac_equals x.mac_addr mac)) [
  | inl same ↦ record {
    offset = 0;
    peer = x;
    found = rw same (ap some (omega arith));
    inside = omega arith;
    read = refl;
    written = λ f. rw same;
  }
  | inr other ↦
      let l = index_of-present mac (suc i) xs (rw other at h) in
      record {
        offset = suc l.offset;
        peer = l.peer;
        found = rw other (l.found ∙ ap some (omega arith));
        inside = omega (arith, l.inside);
        read = l.read;
        written = λ f. rw other (ap (◌∷◌ x) (l.written f));
      }
]

-- A change that keeps addresses keeps them distinct.
module _ (mac : Bytes) (f : PeerNode → PeerNode)
    (keeps : (p : PeerNode) → (f p).mac_addr ≡ p.mac_addr) where
  pub has_mac-change :
      (other : Bytes) (xs : List PeerNode) → has_mac other (change mac f xs) ≡ has_mac other xs
  has_mac-change other [] = refl
  has_mac-change other (x ∷ xs) = elim (Bool-cases (mac_equals x.mac_addr mac)) [
    | inl same ↦ rw (same, keeps x)
    | inr differs ↦ rw (differs, has_mac-change other xs)
  ]

  pub change-Distinct : (xs : List PeerNode) → Distinct xs → Distinct (change mac f xs)
  change-Distinct [] d = tt
  change-Distinct (x ∷ xs) (head, tail) = elim (Bool-cases (mac_equals x.mac_addr mac)) [
    | inl same ↦ rw (same, keeps x) (head, tail)
    | inr differs ↦ rw (differs, has_mac-change x.mac_addr xs) (head, change-Distinct xs tail)
  ]

  pub length-change : (xs : List PeerNode) → length (change mac f xs) ≡ length xs
  length-change [] = refl
  length-change (x ∷ xs) = elim (Bool-cases (mac_equals x.mac_addr mac)) [
    | inl same ↦ rw same
    | inr differs ↦ rw (differs, length-change xs)
  ]

has_mac-snoc :
    (other : Bytes) (xs : List PeerNode) (p : PeerNode)
    → has_mac other xs ≡ false
    → mac_equals p.mac_addr other ≡ false
    → has_mac other (xs ++ p ∷ []) ≡ false
has_mac-snoc other [] p h k = rw k
has_mac-snoc other (x ∷ xs) p h k = elim (Bool-cases (mac_equals x.mac_addr other)) [
  | inl same ↦ absurd (ground (arith, h))
  | inr differs ↦ rw differs (has_mac-snoc other xs p (rw differs at h) k)
]

-- A new address behind distinct ones.
pub snoc-Distinct :
    (xs : List PeerNode) (p : PeerNode)
    → Distinct xs
    → has_mac p.mac_addr xs ≡ false
    → Distinct (xs ++ p ∷ [])
snoc-Distinct [] p d h = (refl, tt)
snoc-Distinct (x ∷ xs) p (head, tail) h = elim (Bool-cases (mac_equals x.mac_addr p.mac_addr)) [
  | inl same ↦ absurd (ground (arith, h))
  | inr differs ↦ (
    has_mac-snoc x.mac_addr xs p head (mac_equals_sym p.mac_addr x.mac_addr ∙ differs),
    snoc-Distinct xs p tail (rw differs at h),
  )
]
