-- ===== src/Barrier/Clock.antt =====
-- The last hart opens the gate before it sets the clock, so that others may go on with the old one.
use lib_checkpoint.Common.{
  ℕ, zero, suc, ◌^◌, ◌≤◌, ◌<◌, ◌≡◌, ◌≢◌, arith, refl, ap, ◌∙◌, List, [], ◌∷◌, ◌++◌, dec_lt,
}
use lib_checkpoint.Spinlock.{taken}
use lib_checkpoint.Restore.{must_wait}
use lib_checkpoint.Barrier.{
  Shared, Pc, spinning, counted, behind, ahead, waiting, restoring, passed, access, System, step,
  run, initial,
}
use lib_checkpoint.Common.Schedule.{IsSchedule}

-- The shared variables while the gate is shut and nobody holds the lock.
abbrev pub shut : ℕ → Shared
shut counter = record { lock = 0; counter = counter; release = 0; clock_writes = 0 }

-- Hart `i` stands at `p`, and the others where they stood in `pc`.
abbrev pub Stands : ℕ → Shared → Pc → (ℕ → Pc) → System → Type 0
Stands i m p pc s = (s.shared ≡ m) × (s.pc i ≡ p) × ((j : ℕ) → j ≢ i → s.pc j ≡ pc j)

module _ (all i : ℕ) {pc : ℕ → Pc} where
  next :
      {m m' : Shared} {p p' : Pc} {s : System}
      → Stands i m p pc s
      → access all m p ≡ (m', p')
      → Stands i m' p' pc (step all i s)
  unfolding step
  next {m} {m'} {p} {p'} {s} (shared, here, others) moves = (
    ap (λ x. x.0) turn,
    ground (arith, ap (λ x. x.1) turn),
    λ j other. ground (arith, others j other),
  )
    where
      turn : access all s.shared (s.pc i) ≡ (m', p')
      turn = rw (shared, here) moves

-- Several accesses of one hart.
abbrev pub turns : ℕ → ℕ → List ℕ
turns zero i = []
turns (suc k) i = i ∷ turns k i

turns-IsSchedule : (n k i : ℕ) → i < n → IsSchedule n (turns k i)
turns-IsSchedule n zero i lt = tt
turns-IsSchedule n (suc k) i lt = (lt, turns-IsSchedule n k i lt)

-- The shared variables in the hands of a hart that holds the lock.
abbrev held : ℕ → Shared
held counter = record { lock = taken; counter = counter; release = 0; clock_writes = 0 }

module _ (all i counter : ℕ) {pc : ℕ → Pc} {s : System} (fits : all < 2 ^ 64)
    (early : counter < all) (at : Stands i (shut counter) spinning pc s) where
  -- The hart takes the lock and counts itself.
  count : Stands i (held (suc counter)) counted pc (run all (turns 3 i) s)
  unfolding run access must_wait
  count =
      next all i (next all i (next all i at refl) refl)
        (ap (λ (t : ℕ). (held t, counted)) (omega arith))

  -- A hart that is not the last waits.
  come : suc counter < all → Stands i (shut (suc counter)) waiting pc (run all (turns 5 i) s)
  unfolding run access must_wait
  come more =
      next all i (next all i {m' = held (suc counter)} {p' = behind} count (ground arith)) refl

  -- The last opens the gate.
  open_gate :
      suc counter ≡ all
      → Stands i
          (record { lock = 0; counter = all; release = 1; clock_writes = 0 })
          restoring
          pc
          (run all (turns 6 i) s)
  unfolding run access must_wait
  open_gate last =
      next all i
        (next all i
          (next all i {m = held all} {m' = held all} {p = counted} {p' = ahead} (rw last at count)
            (ground arith))
          refl)
        refl

run-++ : (all : ℕ) (is js : List ℕ) (s : System) → run all (is ++ js) s ≡ run all js (run all is s)
unfolding run
run-++ all [] js s = refl
run-++ all (i ∷ is) js s = run-++ all is js (step all i s)

IsSchedule-++ :
    (n : ℕ) (is js : List ℕ) → IsSchedule n is → IsSchedule n js → IsSchedule n (is ++ js)
IsSchedule-++ n [] js ok ok' = ok'
IsSchedule-++ n (i ∷ is) js (lt, ok) ok' = (lt, IsSchedule-++ n is js ok ok')

-- The first `k` harts wait at the gate, and the others have not come yet.
abbrev pub Gathered : ℕ → System → Type 0
Gathered k s =
    (s.shared ≡ shut k)
    × ((j : ℕ) → j < k → s.pc j ≡ waiting)
    × ((j : ℕ) → k ≤ j → s.pc j ≡ spinning)

one_more :
    (n k : ℕ) (s : System)
    → suc k < n
    → n < 2 ^ 64
    → Gathered k s
    → Gathered (suc k) (run n (turns 5 k) s)
one_more n k s lt fits (shared, wait, spin) =
    let (shared', here, others) =
      come n k k {pc = s.pc} {s = s} fits (omega arith) (shared, spin k (omega arith), λ j _. refl)
        lt in
    (
      shared',
      (λ j less. elim (dec_lt j k) [
        | yes before ↦ others j (omega arith) ∙ wait j before
        | no last ↦ ap (run n (turns 5 k) s).pc (omega arith) ∙ here
      ]),
      λ j more. others j (omega arith) ∙ spin j (omega arith),
    )

gather :
    (n k : ℕ) → k < n → n < 2 ^ 64 → (is : List ℕ) × IsSchedule n is × Gathered k (run n is initial)
unfolding run
gather n zero lt fits = ([], tt, (refl, (λ j none. absurd (omega arith)), (λ j _. refl)))
gather n (suc k) lt fits =
    let (is, ok, gathered) = gather n k (omega arith) fits in
    (
      is ++ turns 5 k,
      IsSchedule-++ n is (turns 5 k) ok (turns-IsSchedule n 5 k (omega arith)),
      rw (run-++ n is (turns 5 k) initial) (one_more n k (run n is initial) lt fits gathered),
    )

-- Hart 0 goes on while the last hart has yet to set the clock.
pass :
    (n k : ℕ) (s : System)
    → suc (suc k) ≡ n
    → n < 2 ^ 64
    → Gathered (suc k) s
    → let s' = run n (turns 6 (suc k) ++ 0 ∷ []) s in
      (s'.pc 0 ≡ passed) × (s'.shared.clock_writes ≡ 0)
unfolding run access
pass n k s last fits (shared, wait, spin) =
    let (shared', _, others) =
      open_gate n (suc k) (suc k) {pc = s.pc} {s = s} fits (omega arith)
        (shared, spin (suc k) (omega arith), λ j _. refl) last in
    let (shared'', here, _) =
      next n 0 {pc = (run n (turns 6 (suc k)) s).pc} {p = waiting}
        (shared', others 0 (omega arith) ∙ wait 0 (omega arith), λ j _. refl) refl in
    (here, ap (λ (m : Shared). m.clock_writes) shared'')

-- For any number of harts from two to `2 ^ 64 - 1`, some schedule lets hart 0 out of the meeting
-- while nobody has set the clock.
pub clock_may_be_late :
    (n : ℕ)
    → 2 ≤ n
    → n < 2 ^ 64
    → (is : List ℕ) × IsSchedule n is
      × ((run n is initial).pc 0 ≡ passed)
      × ((run n is initial).shared.clock_writes ≡ 0)
clock_may_be_late zero some fits = absurd (omega arith)
clock_may_be_late (suc zero) some fits = absurd (omega arith)
clock_may_be_late (suc (suc k)) some fits =
    let n = suc (suc k) in
    let (is, ok, gathered) = gather n (suc k) (omega arith) fits in
    let (out, unset) = pass n k (run n is initial) refl fits gathered in
    let late = turns 6 (suc k) ++ 0 ∷ [] in
    (
      is ++ late,
      IsSchedule-++ n is late ok (
          IsSchedule-++ n (turns 6 (suc k)) (0 ∷ []) (turns-IsSchedule n 6 (suc k) (omega arith))
            (omega arith, tt)),
      rw (run-++ n is late initial) out,
      rw (run-++ n is late initial) unset,
    )
