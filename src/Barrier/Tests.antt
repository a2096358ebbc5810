-- ===== src/Barrier/Tests.antt =====
-- Two harts meet: hart 0 comes first and waits, hart 1 lets both go on.
use lib_checkpoint.Common.{ℕ, ◌≡◌, refl, arith, List, [], ◌∷◌, ◌++◌}
use lib_checkpoint.Restore.{must_wait}
use lib_checkpoint.Barrier.{waiting, passed, restoring, access, step, run, initial}
use lib_checkpoint.Common.Schedule.{IsSchedule}
use lib_checkpoint.Barrier.Clock.{clock_may_be_late}

-- Hart 1 is about to set the clock.
abbrev open_gate : List ℕ
open_gate = 0 ∷ 0 ∷ 1 ∷ 0 ∷ 1 ∷ 0 ∷ 0 ∷ 0 ∷ 1 ∷ 1 ∷ 1 ∷ 1 ∷ 1 ∷ 1 ∷ []

abbrev whole : List ℕ
whole = open_gate ++ 1 ∷ 0 ∷ []

schedule_test :
    ((run 2 open_gate initial).pc 0 ≡ waiting)
    × ((run 2 open_gate initial).pc 1 ≡ restoring)
    × ((run 2 whole initial).pc 0 ≡ passed)
    × ((run 2 whole initial).pc 1 ≡ passed)
    × ((run 2 whole initial).shared
        ≡ record { lock = 0; counter = 2; release = 1; clock_writes = 1 })
unfolding run step access must_wait
schedule_test = (refl, refl, refl, refl, refl)

clock_may_be_late_example :
    (is : List ℕ) × IsSchedule 3 is
    × ((run 3 is initial).pc 0 ≡ passed)
    × ((run 3 is initial).shared.clock_writes ≡ 0)
clock_may_be_late_example = clock_may_be_late 3 (omega arith) (omega arith)
