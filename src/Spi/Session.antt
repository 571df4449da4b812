-- ===== src/Spi/Session.antt =====
-- Any use of the bus through `SPIManager`.
use sky_sweep.Prelude.{
  ℕ, inl, inr, Bool, true, false, Bool-cases, ◌&&◌, none, some, List, [], ◌∷◌, Bytes,
}
use sky_sweep.Spi.Bus.{Chip, Bus, begin, acquire, release, deselect_all, transfer, transfer_bulk}
use sky_sweep.Spi.Line.{
  IsIdle, send-Selects, send_all-Selects, deselect_all-IsIdle, select_device-Selects,
}

-- One call of a public operation that returns with every chip deselected.
pub data Call : Type 0 where
  begins acquires : Bool → Call
  releases deselects : Call
  transfers : Chip → ℕ → Call
  transfers_bulk : Chip → Bytes → Call

abbrev pub run : Call → Bus → Bus
run (begins created) b = (begin created b).1
run (acquires obtained) b = (acquire obtained b).1
run releases b = release b
run deselects b = deselect_all b
run (transfers c x) b = (transfer c x b).1
run (transfers_bulk c xs) b = (transfer_bulk c xs b).1

abbrev pub run_all : List Call → Bus → Bus
run_all [] b = b
run_all (c ∷ cs) b = run_all cs (run c b)

pub acquire-IsIdle : (obtained : Bool) (b : Bus) → IsIdle b → IsIdle (acquire obtained b).1
unfolding acquire
acquire-IsIdle obtained b h = elim (Bool-cases (b.created && obtained)) [
  | inl t ↦ rw t h
  | inr f ↦ rw f h
]

pub release-IsIdle : (b : Bus) → IsIdle b → IsIdle (release b)
unfolding release
release-IsIdle b h = elim (Bool-cases b.created) [ inl t ↦ rw t h | inr f ↦ rw f h ]

pub begin-IsIdle : (created : Bool) (b : Bus) → IsIdle b → IsIdle (begin created b).1
unfolding begin deselect_all
begin-IsIdle true b h = deselect_all-IsIdle b none h
begin-IsIdle false b h = h

run-IsIdle : (c : Call) (b : Bus) → IsIdle b → IsIdle (run c b)
unfolding transfer transfer_bulk
run-IsIdle (begins created) b h = begin-IsIdle created b h
run-IsIdle (acquires obtained) b h = acquire-IsIdle obtained b h
run-IsIdle releases b h = release-IsIdle b h
run-IsIdle deselects b h = deselect_all-IsIdle b none h
run-IsIdle (transfers c x) b h =
    deselect_all-IsIdle _ (some c) (send-Selects c x _ (select_device-Selects c b none h))
run-IsIdle (transfers_bulk c xs) b h =
    deselect_all-IsIdle _ (some c) (send_all-Selects c xs _ (select_device-Selects c b none h))

-- From an idle bus, any calls of begin, acquire, release, deselectAll, transfer and transferBulk
-- never have two chips selected at once, send bytes only while a chip is selected, and leave none
-- selected.
pub run_all-IsIdle : (cs : List Call) (b : Bus) → IsIdle b → IsIdle (run_all cs b)
run_all-IsIdle [] b h = h
run_all-IsIdle (c ∷ cs) b h = run_all-IsIdle cs (run c b) (run-IsIdle c b h)
