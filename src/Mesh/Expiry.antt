-- ===== src/Mesh/Expiry.antt =====
-- `removeStale` and `getActivePeerCount` on the list that the table stands for.
use mathlib.Core.List.{append_assoc}
use sky_sweep.Prelude.{
  ℕ, suc, ◌+◌, ◌-◌, ◌<◌, ◌≡◌, refl, sym, ap, ◌∙◌, inl, inr, false, ◌&&◌, some, List, [], ◌∷◌, ◌++◌,
  arith, Bool-cases, ltb, sub32, u8, length, Bytes, set, get_elem?, store, store-some, replicate,
  length-append, get_elem?-append_length, set-append_length, Bytes, set,
}
use sky_sweep.Mesh.Node.{
  PeerNode, Mesh, empty_peer, max_peers, is_stale, remove_stale_from, remove_stale,
  count_active_from, get_active_peer_count,
}
use sky_sweep.Mesh.Table.{has_mac, Distinct, Represents, expire, expire_all, active_in}
use sky_sweep.Mesh.Lookup.{at_start}
use sky_sweep.Mesh.Receive.{Leaves}

module _ (clock : ℕ → ℕ) (timeout_ms : ℕ) where
  remove_stale_from-expire_all :
      (xs before rest : List PeerNode) (i : ℕ)
      → length before ≡ i
      → remove_stale_from (length xs) i clock timeout_ms (before ++ (xs ++ rest))
        ≡ some (before ++ (expire_all i clock timeout_ms xs ++ rest))
  unfolding remove_stale_from is_stale
  remove_stale_from-expire_all [] before rest i h = refl
  remove_stale_from-expire_all (x ∷ xs) before rest i h =
      let read = get_elem?-append_length before x (xs ++ rest) i h in
      let later : (y : PeerNode)
          → remove_stale_from (length xs) (suc i) clock timeout_ms (before ++ (y ∷ (xs ++ rest)))
            ≡ some (before ++ (y ∷ (expire_all (suc i) clock timeout_ms xs ++ rest))) =
        λ y.
          ap (remove_stale_from (length xs) (suc i) clock timeout_ms)
            (sym (append_assoc before (y ∷ []) (xs ++ rest)))
          ∙ remove_stale_from-expire_all xs (before ++ y ∷ []) rest (suc i)
              (omega (arith, length-append before (y ∷ [])))
          ∙ ap some
              (append_assoc before (y ∷ []) (expire_all (suc i) clock timeout_ms xs ++ rest)) in
      rw read (elim (Bool-cases (x.active && ltb timeout_ms (sub32 (clock i) x.last_seen))) [
        | inl stale ↦ rw (stale, written (record x { active = false })) (later _)
        | inr recent ↦ rw recent (later x)
      ])
    where
      written :
          (y : PeerNode)
          → store (before ++ (x ∷ (xs ++ rest))) i y ≡ some (before ++ (y ∷ (xs ++ rest)))
      written y =
          store-some (before ++ (x ∷ (xs ++ rest))) i y
            (omega (arith, length-append before (x ∷ (xs ++ rest))))
          ∙ ap some (
              ap (λ n. set (before ++ (x ∷ (xs ++ rest))) n y) (sym h)
              ∙ set-append_length before x (xs ++ rest) y)

  expire_mac : (now : ℕ) (p : PeerNode) → (expire now timeout_ms p).mac_addr ≡ p.mac_addr
  expire_mac now p = elim (Bool-cases (p.active && ltb timeout_ms (sub32 now p.last_seen))) [
    | inl stale ↦ rw stale
    | inr recent ↦ rw recent
  ]

  length-expire_all :
      (i : ℕ) (xs : List PeerNode) → length (expire_all i clock timeout_ms xs) ≡ length xs
  length-expire_all i [] = refl
  length-expire_all i (x ∷ xs) = ap suc (length-expire_all (suc i) xs)

  has_mac-expire_all :
      (i : ℕ) (xs : List PeerNode) (mac : Bytes)
      → has_mac mac (expire_all i clock timeout_ms xs) ≡ has_mac mac xs
  has_mac-expire_all i [] mac = refl
  has_mac-expire_all i (x ∷ xs) mac = rw (expire_mac (clock i) x, has_mac-expire_all (suc i) xs mac)

  expire_all-Distinct :
      (i : ℕ) (xs : List PeerNode) → Distinct xs → Distinct (expire_all i clock timeout_ms xs)
  expire_all-Distinct i [] d = tt
  expire_all-Distinct i (x ∷ xs) (head, tail) = (
    rw (expire_mac (clock i) x, has_mac-expire_all (suc i) xs x.mac_addr) head,
    expire_all-Distinct (suc i) xs tail,
  )

  -- removeStale on a well-formed table marks as inactive exactly the active entries last heard more
  -- than the timeout before the clock of their round (modulo 2^32), changes nothing else, and keeps
  -- the table well formed.
  pub remove_stale-expire_all :
      (m : Mesh) (known : List PeerNode)
      → Represents m known
      → Leaves (expire_all 0 clock timeout_ms known) (remove_stale clock timeout_ms m)
  unfolding remove_stale
  remove_stale-expire_all m known v =
      let zeros = replicate (max_peers - length known) empty_peer in
      record {
        next = record m { peers = expire_all 0 clock timeout_ms known ++ zeros };
        returns = rw (v.table, v.count, remove_stale_from-expire_all known [] zeros 0 refl);
        stands = record {
          table = rw (length-expire_all 0 known);
          count = v.count ∙ sym (length-expire_all 0 known);
          bounded = omega (arith, length-expire_all 0 known, v.bounded);
          distinct = expire_all-Distinct 0 known v.distinct;
        };
      }

count_active_from-active_in :
    (xs peers : List PeerNode) (i count : ℕ)
    → ((j : ℕ) → j < length xs → get_elem? peers (i + j) ≡ get_elem? xs j)
    → count + length xs < 256
    → count_active_from (length xs) i count peers ≡ some (count + active_in xs)
unfolding count_active_from
count_active_from-active_in [] peers i count at h = ap some (omega arith)
count_active_from-active_in (x ∷ xs) peers i count at h =
    let first : get_elem? peers i ≡ some x =
      ap (get_elem? peers) (omega arith) ∙ at 0 (omega arith) in
    let rest : (j : ℕ) → j < length xs → get_elem? peers (suc i + j) ≡ get_elem? xs j =
      λ j h. ap (get_elem? peers) (omega arith) ∙ at (suc j) (omega arith) in
    let small : u8 (count + 1) ≡ count + 1 = omega arith in
    rw first (elim (Bool-cases x.active) [
      | inl active ↦
          rw (active, small)
            (count_active_from-active_in xs peers (suc i) (count + 1) rest (omega arith)
              ∙ ap some (omega arith))
      | inr idle ↦ rw idle (count_active_from-active_in xs peers (suc i) count rest (omega arith))
    ])

-- On a well-formed table getActivePeerCount is the number of active entries, without overflow.
pub get_active_peer_count-active_in :
    (m : Mesh) (known : List PeerNode)
    → Represents m known
    → get_active_peer_count m ≡ some (active_in known)
unfolding get_active_peer_count
get_active_peer_count-active_in m known v =
    let zeros = replicate (max_peers - length known) empty_peer in
    rw (v.table, v.count)
      (count_active_from-active_in known (known ++ zeros) 0 0 (at_start known zeros)
          (omega (arith, v.bounded))
        ∙ ap some (omega arith))
