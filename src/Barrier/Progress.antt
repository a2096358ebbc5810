-- ===== src/Barrier/Progress.antt =====
-- The meeting cannot get stuck: from every state that a schedule reaches, a further schedule lets all
-- the harts pass. Each of its accesses brings the harts nearer to the end.
use lib_checkpoint.Common.{
  ℕ, zero, suc, ◌*◌, ◌^◌, ◌≤◌, ◌<◌, ◌≡◌, arith, List, [], ◌∷◌, length, refl,
}
use lib_checkpoint.Barrier.{Pc, passed, access, System, step, run, initial}
use lib_checkpoint.Common.Schedule.{IsSchedule, finish}
use lib_checkpoint.Common.Sums.{weigh, weigh-update}
use lib_checkpoint.Barrier.Invariant.{Inv, reached-Inv, run-Inv}
use lib_checkpoint.Barrier.Ready.{rank, IsReady, access-rank, someone_ready, rank-passed}

step-rank :
    (n i : ℕ) (s : System)
    → i < n
    → IsReady s.shared (s.pc i)
    → weigh rank n (step n i s).pc < weigh rank n s.pc
unfolding step
step-rank n i s lt ready = omega (
  arith,
  access-rank n s.shared (s.pc i) ready,
  weigh-update rank n s.pc i (access n s.shared (s.pc i)).1 lt,
)

-- The first `n` harts are all on the way out.
pub AllPassed : ℕ → (ℕ → Pc) → Type 0
AllPassed zero pc = Unit
AllPassed (suc n) pc = (pc n ≡ passed) × AllPassed n pc

done_passed : (n : ℕ) (pc : ℕ → Pc) → weigh rank n pc ≤ 0 → AllPassed n pc
unfolding AllPassed weigh
done_passed zero pc done = tt
done_passed (suc n) pc done = (rank-passed (pc n) (omega arith), done_passed n pc (omega arith))

-- Some hart brings all of them nearer to the end.
go :
    (n : ℕ) (s : System)
    → 0 < n
    → n < 2 ^ 64
    → Inv n s.shared s.pc
    → 0 < weigh rank n s.pc
    → (i : ℕ) × (i < n)
      × Inv n (step n i s).shared (step n i s).pc
      × (weigh rank n (step n i s).pc < weigh rank n s.pc)
unfolding run
go n s pos fits inv some =
    let (i, lt, ready) = someone_ready inv pos some in
    (i, lt, run-Inv n (i ∷ []) s fits (lt, tt) inv, step-rank n i s lt ready)

weigh-rank : (n : ℕ) (pc : ℕ → Pc) → weigh rank n pc ≤ n * 8
unfolding weigh
weigh-rank zero pc = omega arith
weigh-rank (suc n) pc = omega (arith, rank-bound (pc n), weigh-rank n pc)
  where
    rank-bound : (p : Pc) → rank p ≤ 8
    rank-bound p = ground arith

-- However the `n` harts, at least one and fewer than `2 ^ 64`, have been interleaved so far, some
-- further schedule of at most eight accesses for each hart lets all of them pass.
pub always_finishes :
    (n : ℕ) (is : List ℕ)
    → 0 < n
    → n < 2 ^ 64
    → IsSchedule n is
    → (more : List ℕ) × IsSchedule n more
      × (length more ≤ n * 8)
      × AllPassed n (run n more (run n is initial)).pc
unfolding run
always_finishes n is pos fits ok =
    let s = run n is initial in
    let (more, ok', short, _, done) =
      finish n (step n) (λ (s : System). Inv n s.shared s.pc) (λ (s : System). weigh rank n s.pc)
        (λ s. go n s pos fits) (run n) (λ s. refl) (λ i is s. refl) (n * 8) s
        (reached-Inv n is pos fits ok) (weigh-rank n s.pc) in
    (more, ok', short, done_passed n (run n more s).pc done)
