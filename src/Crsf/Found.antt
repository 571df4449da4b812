-- ===== src/Crsf/Found.antt =====
-- Whatever `scan` finds stands in the stream, byte for byte.
use mathlib.Core.List.{append_assoc}
use sky_sweep.Prelude.{
  ℕ, ◌≡◌, refl, sym, ap, ◌∙◌, ◌⊎◌, inl, inr, true, Option, none, some, [], ◌∷◌, ◌++◌, arith, Bytes,
  Bool-cases,
}
use sky_sweep.Crsf.Frame.{is_intact, receive, scan, scan_after, IsPartial}
use sky_sweep.Crsf.Wire.{IsFrame, Outcome, receive-Outcome}

pub record Found (stream f : Bytes) : Type 0 where
  pub before : Bytes
  pub after : Bytes
  pub splits : stream ≡ before ++ (f ++ after)
  pub frame : IsFrame f
  pub intact : is_intact f ≡ true

-- A stream holds what a later part of it holds.
Found-later : {f : Bytes} (xs ys : Bytes) → Found ys f → Found (xs ++ ys) f
Found-later {f} xs ys v = record {
  before = xs ++ v.before;
  after = v.after;
  splits = ap (◌++◌ xs) v.splits ∙ sym (append_assoc xs v.before (f ++ v.after));
  frame = v.frame;
  intact = v.intact;
}

module _ {f : Bytes} (c : Bytes) (b : ℕ) (bs : Bytes)
    (rest : (k : Bytes) → IsPartial k → (scan k bs).1 ≡ some f → Found (k ++ bs) f) where
  -- What is kept is nothing, or all that there was.
  Found-kept :
      (k : Bytes)
      → (k ≡ []) ⊎ (k ≡ c ++ b ∷ [])
      → IsPartial k
      → (scan k bs).1 ≡ some f
      → Found ((c ++ b ∷ []) ++ bs) f
  Found-kept k (inl none_kept) v h = Found-later (c ++ b ∷ []) bs (rw none_kept at (rest k v h))
  Found-kept k (inr all_kept) v h = rw (← all_kept) (rest k v h)

  scan_after-Found :
      (kept : Bytes) (g : Option Bytes)
      → Outcome c b (kept, g)
      → (scan_after (kept, g) (λ k. scan k bs)).1 ≡ some f
      → Found ((c ++ b ∷ []) ++ bs) f
  scan_after-Found kept none (k, v) h = Found-kept kept k v h
  scan_after-Found kept (some g) (e, e', frame) h = elim (Bool-cases (is_intact g)) [
    | inl good ↦
        let reported : some g ≡ some f = rw good at h in
        let same : g ≡ f = cc in
        rw (← same) (record {
          before = [];
          after = bs;
          splits = ap (λ t. t ++ bs) (sym e');
          frame = frame;
          intact = good;
        })
    | inr damaged ↦
        Found-kept kept (inl e) (rw e (record { synced = inl refl; bounded = inl (omega arith) }))
          (rw damaged at h)
  ]

pub scan-Found :
    {f : Bytes} (bs c : Bytes) → IsPartial c → (scan c bs).1 ≡ some f → Found (c ++ bs) f
unfolding scan
scan-Found [] c v h = cc
scan-Found (b ∷ bs) c v h = rw (append_assoc c (b ∷ []) bs) at (
    scan_after-Found c b bs (λ k. scan-Found bs k) (receive c b).0 (receive c b).1
      (receive-Outcome c b v) h)
