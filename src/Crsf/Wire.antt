-- ===== src/Crsf/Wire.antt =====
-- Frames in a byte stream: every intact frame is found, and nothing else is.
use mathlib.Core.List.{append_assoc}
use sky_sweep.Prelude.{
  ℕ, suc, ◌+◌, ◌-◌, ◌≤◌, ◌<◌, ◌≡◌, refl, ap, ◌∙◌, ◌⊎◌, inl, inr, true, ◌||◌, Option, none, some, [],
  ◌∷◌, ◌++◌, arith, if◌then◌else◌, ◌==◌, ltb, leb, Bytes, Bool-cases, length, get_or, take,
  length-append, length-take, take-length, get_or-length, get_or-append, get_or-append_left,
  snoc_split, leb→le, leb→lt, ltb→lt, ltb→le, ==_iff, ==_refl,
}
use sky_sweep.Crsf.Crc.{crc_over}
use sky_sweep.Crsf.Parser.{sync_byte, payload_size_max}
use sky_sweep.Crsf.Frame.{
  wire, type_of, payload_of, is_intact, receive, receive_more, scan, scan_after, IsPartial,
}

receive-append : (c : Bytes) (b : ℕ) → 0 < length c → receive c b ≡ receive_more (c ++ b ∷ [])
unfolding receive
receive-append [] b h = absurd (omega arith)
receive-append (x ∷ c) b h = refl

scan-receive :
    (c : Bytes) (b : ℕ) (bs : Bytes) {r : Bytes × Option Bytes}
    → receive c b ≡ r
    → scan c (b ∷ bs) ≡ scan_after r (λ k. scan k bs)
unfolding scan
scan-receive c b bs e = ap (λ r. scan_after r (λ k. scan k bs)) e

module _ (type : ℕ) (payload : Bytes) where
  abbrev size : ℕ
  size = length payload

  length-wire : length (wire type payload) ≡ size + 4
  length-wire = omega (arith, length-append payload (crc_over 0 (type ∷ payload) ∷ []))

  pub payload_of-wire : payload_of (wire type payload) ≡ payload
  payload_of-wire =
      let n : size + 2 - 2 ≡ size = omega arith in
      rw n (take-length payload (crc_over 0 (type ∷ payload) ∷ []))

  pub is_intact-wire : is_intact (wire type payload) ≡ true
  is_intact-wire =
      let at : 1 + (size + 2) ≡ suc (suc (suc size)) = omega arith in
      rw (
        payload_of-wire,
        at,
        get_or-length payload (crc_over 0 (type ∷ payload)) [] 0,
        ==_refl (crc_over 0 (type ∷ payload)),
      )

  receive_more-wire :
      size ≤ payload_size_max → receive_more (wire type payload) ≡ ([], some (wire type payload))
  receive_more-wire h = ground (arith, length-wire)

  -- With bytes still missing the receiver goes on.
  receive_more_begun :
      (f missing : Bytes)
      → size ≤ payload_size_max
      → f ++ missing ≡ wire type payload
      → 0 < length missing
      → receive_more f ≡ (f, none)
  receive_more_begun f missing h e pos = ground (
    arith,
    length-wire,
    ap length e,
    length-append f missing,
    get_or-append_left f missing (wire type payload) 1 0 e,
  )

  scan_rest :
      (missing : Bytes) (b : ℕ) (kept rest : Bytes)
      → size ≤ payload_size_max
      → kept ++ (b ∷ missing) ≡ wire type payload
      → 0 < length kept
      → scan kept (b ∷ (missing ++ rest)) ≡ ([], some (wire type payload))
  unfolding scan
  scan_rest [] b kept rest h e pos =
      scan-receive kept b rest (receive-append kept b pos ∙ ap receive_more e ∙ receive_more-wire h)
      ∙ rw is_intact-wire
  scan_rest (c ∷ missing) b kept rest h e pos =
      let whole = append_assoc kept (b ∷ []) (c ∷ missing) ∙ e in
      scan-receive kept b (c ∷ (missing ++ rest)) (
        receive-append kept b pos
        ∙ receive_more_begun (kept ++ b ∷ []) (c ∷ missing) h whole (omega arith))
      ∙ scan_rest missing c (kept ++ b ∷ []) rest h whole
          (omega (arith, length-append kept (b ∷ [])))

  -- From the idle state a whole frame is found.
  pub scan-wire :
      (rest : Bytes)
      → size ≤ payload_size_max
      → scan [] (wire type payload ++ rest) ≡ ([], some (wire type payload))
  unfolding scan receive
  scan-wire rest h =
      scan_rest (type ∷ (payload ++ crc_over 0 (type ∷ payload) ∷ [])) (size + 2) (sync_byte ∷ [])
        rest h refl (omega arith)

-- A completed frame: its sync byte, its length byte, and as many bytes as that announces.
pub record IsFrame (f : Bytes) : Type 0 where
  pub synced : get_or f 0 0 ≡ sync_byte
  pub low : 2 ≤ get_or f 1 0
  pub high : get_or f 1 0 ≤ payload_size_max + 2
  pub complete : length f ≡ get_or f 1 0 + 2

-- A frame whose CRC is right is the wire form of its type and payload.
pub IsFrame-wire :
    (f : Bytes) → IsFrame f → is_intact f ≡ true → f ≡ wire (type_of f) (payload_of f)
IsFrame-wire [] v good = absurd (omega (arith, v.complete))
IsFrame-wire (a ∷ []) v good = absurd (omega (arith, v.complete))
IsFrame-wire (a ∷ b ∷ []) v good = absurd (omega (arith, v.complete, v.low))
IsFrame-wire (a ∷ b ∷ t ∷ rest) v good = ground (
  arith,
  v.synced,
  v.complete,
  v.low,
  snoc_split (b - 2) rest 0 (omega (arith, v.complete, v.low)),
  length-take (b - 2) rest,
  crc,
)
  where
    crc : crc_over 0 (t ∷ take (b - 2) rest) ≡ get_or rest (b - 2) 0
    crc =
        let at : 1 + b ≡ suc (suc (suc (b - 2))) = omega (arith, v.low) in
        (==_iff _ _).0 (rw at at good)

abbrev pub Outcome : Bytes → ℕ → Bytes × Option Bytes → Type 0
Outcome c b (kept, none) = ((kept ≡ []) ⊎ (kept ≡ c ++ b ∷ [])) × IsPartial kept
Outcome c b (kept, some f) = (kept ≡ []) × (f ≡ c ++ b ∷ []) × IsFrame f

module _ (c : Bytes) (b : ℕ) (synced : get_or (c ++ b ∷ []) 0 0 ≡ sync_byte)
    (bounded : (length (c ++ b ∷ []) ≤ 3)
      ⊎ ((2 ≤ get_or (c ++ b ∷ []) 1 0)
          × (get_or (c ++ b ∷ []) 1 0 ≤ payload_size_max + 2)
          × (length (c ++ b ∷ []) ≤ get_or (c ++ b ∷ []) 1 0 + 2))) where
  abbrev longer : Bytes
  longer = c ++ b ∷ []

  Outcome-sized :
      3 ≤ length longer
      → 2 ≤ get_or longer 1 0
      → get_or longer 1 0 ≤ payload_size_max + 2
      → Outcome c b (
          if leb (get_or longer 1 0 + 2) (length longer) then ([], some longer) else (longer, none))
  Outcome-sized h low high = elim (Bool-cases (leb (get_or longer 1 0 + 2) (length longer))) [
    | inl full ↦ rw full (
      refl,
      refl,
      record {
        synced = synced;
        low = low;
        high = high;
        complete = omega (arith, leb→le _ (length longer) full, bounded);
      },
    )
    | inr short ↦ rw short (
      inr refl,
      record {
        synced = inr synced;
        bounded = inr (low, high, leb→lt (get_or longer 1 0 + 2) (length longer) short);
      },
    )
  ]

  Outcome-more : Outcome c b (receive_more longer)
  Outcome-more = elim (Bool-cases (ltb (length longer) 3)) [
    | inl short ↦
        rw short
          (inr refl, record { synced = inr synced; bounded = inl (ltb→lt (length longer) 3 short) })
    | inr long ↦
        rw long
          (elim (Bool-cases
            (ltb (get_or longer 1 0) 2 || ltb payload_size_max (get_or longer 1 0 - 2))) [
              | inl bad ↦
                  rw bad (inl refl, record { synced = inl refl; bounded = inl (omega arith) })
              | inr fine ↦
                  rw fine
                    (Outcome-sized (ltb→le (length longer) 3 long) (ground arith) (ground arith))
            ])
  ]

pub receive-Outcome : (c : Bytes) (b : ℕ) → IsPartial c → Outcome c b (receive c b)
unfolding receive
receive-Outcome [] b v = elim (Bool-cases (b == sync_byte)) [
  | inl e ↦ rw e (inr refl, record { synced = inr ((==_iff _ _).0 e); bounded = inl (omega arith) })
  | inr e ↦ rw e (inl refl, record { synced = inl refl; bounded = inl (omega arith) })
]
receive-Outcome (x ∷ c) b v =
    Outcome-more (x ∷ c) b (ground (arith, v.synced))
      (ground (arith, v.bounded, length-append c (b ∷ []), get_or-append c (b ∷ []) 0 0))
