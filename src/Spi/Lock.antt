-- ===== src/Spi/Lock.antt =====
-- How the bus is taken and given back.
use sky_sweep.Prelude.{
  suc, ◌-◌, ◌≡◌, refl, ap, Bool, true, false, Bool-cases, if◌then◌else◌, false≢true, inl, inr, ◌⊎◌,
  arith,
}
use sky_sweep.Spi.Bus.{Bus, acquire, release}

-- The bus is obtained, and giving it back restores it.
pub record Taken (obtained : Bool) (b : Bus) : Type 0 where
  pub bus : Bus
  pub answers : acquire obtained b ≡ (true, bus)
  pub given : release bus ≡ b
  pub was_free : obtained ≡ true
  pub same_traffic : bus.traffic ≡ b.traffic
  pub once : bus.taken ≡ suc b.taken

give_back :
    (b : Bus) (created : Bool)
    → created ≡ true
    → (if created then record b { taken = suc b.taken - 1 } else record b { taken = suc b.taken })
      ≡ b
give_back b true e = ap (λ n. record b { taken = n }) (omega arith)
give_back b false e = absurd (false≢true e)

pub acquire-cases :
    (obtained : Bool) (b : Bus) → (acquire obtained b ≡ (false, b)) ⊎ Taken obtained b
unfolding acquire release
acquire-cases obtained b = elim (Bool-cases b.created) [
  | inr missing ↦ inl (simp missing refl)
  | inl created ↦ elim (Bool-cases obtained) [
    | inr late ↦ inl (simp (created, late) refl)
    | inl free ↦ inr (record {
      bus = record b { taken = suc b.taken };
      answers = simp (created, free) refl;
      given = give_back b b.created created;
      was_free = free;
      same_traffic = refl;
      once = refl;
    })
  ]
]
