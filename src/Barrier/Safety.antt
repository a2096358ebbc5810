-- ===== src/Barrier/Safety.antt =====
-- What the meeting guarantees: one hart at a time behind the lock, none past the gate before all
-- have come, and one write of the clock.
use lib_checkpoint.Common.{ℕ, ◌+◌, ◌^◌, ◌≤◌, ◌<◌, arith, List}
use lib_checkpoint.Barrier.{Pc, System, run, initial}
use lib_checkpoint.Barrier.Invariant.{testing, guarding, Inv, reached-Inv}
use lib_checkpoint.Common.Schedule.{IsSchedule}

-- between the acquisition of the lock and its release
abbrev pub holding : Pc → ℕ
holding p = guarding p + testing p

module _ (n : ℕ) (is : List ℕ) (pos : 0 < n) (fits : n < 2 ^ 64) (ok : IsSchedule n is) where
  abbrev pub reached : System
  reached = run n is initial

  inv : Inv n reached.shared reached.pc
  inv = reached-Inv n is pos fits ok

  -- However `n` harts, at least one and fewer than `2 ^ 64`, are interleaved, the clock is
  -- written at most once.
  pub clock_at_most_once : reached.shared.clock_writes ≤ 1
  clock_at_most_once = ground (arith, inv.one_leader)
