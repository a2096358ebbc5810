-- ===== src/Barrier/Invariant.antt =====
-- What holds of the harts at every moment, when `n` of them run and each has read `n`.
use lib_checkpoint.Common.{
  update, ℕ, ◌+◌, ◌^◌, ◌≤◌, ◌<◌, ◌≡◌, ◌≢◌, ◌⊎◌, inl, inr, refl, arith, List, [], ◌∷◌,
}
use lib_checkpoint.Restore.{must_wait}
use lib_checkpoint.Barrier.{
  Shared, Pc, spinning, trying, locked, counted, behind, ahead, waiting, leading, restoring, passed,
  access, System, step, run, initial,
}
use lib_checkpoint.Common.Schedule.{IsSchedule}
use lib_checkpoint.Common.Sums.{weigh, weigh-update, weight-le-weigh, weigh-le, weigh-const}

-- The hart has added one to the counter.
abbrev pub arrived : Pc → ℕ
arrived spinning = 0
arrived trying = 0
arrived locked = 0
arrived _ = 1

-- The hart holds the lock and is at the test of the counter.
abbrev pub testing : Pc → ℕ
testing counted = 1
testing _ = 0

-- The hart holds the lock elsewhere.
abbrev pub guarding : Pc → ℕ
guarding locked = 1
guarding behind = 1
guarding ahead = 1
guarding _ = 0

-- The hart lets the others go, and has yet to set the clock.
abbrev pub leader : Pc → ℕ
leader ahead = 1
leader leading = 1
leader restoring = 1
leader _ = 0

-- The hart is past the meeting point.
abbrev pub through : Pc → ℕ
through restoring = 1
through passed = 1
through _ = 0

pub record Inv (n : ℕ) (m : Shared) (pc : ℕ → Pc) : Type 0 where
  pub exact : m.counter ≡ weigh arrived n pc
  pub exclusive :
      ((m.lock ≡ 0) × (weigh guarding n pc + weigh testing n pc ≡ 0))
      ⊎ ((m.lock ≢ 0) × (weigh guarding n pc + weigh testing n pc ≡ 1))
  pub one_leader :
      ((m.counter ≡ n) × (m.clock_writes + weigh leader n pc + weigh testing n pc ≡ 1))
      ⊎ ((m.counter < n) × (m.clock_writes + weigh leader n pc ≡ 0))
  pub gate :
      ((m.release ≡ 1) × (m.counter ≡ n) × (weigh testing n pc ≡ 0))
      ⊎ ((m.release ≡ 0) × (m.clock_writes ≡ 0) × (weigh through n pc ≡ 0))

module _ {n : ℕ} {m : Shared} {pc : ℕ → Pc} (fits : n < 2 ^ 64) (inv : Inv n m pc) (i : ℕ)
    (lt : i < n) where
  -- The sums after hart `i` moves from `p` to `q`, and what it weighed.
  record Moves (p q : Pc) : Type 0 where
    arrivals : arrived p + weigh arrived n (update pc i q) ≡ arrived q + weigh arrived n pc
    holders : guarding p + weigh guarding n (update pc i q) ≡ guarding q + weigh guarding n pc
    testers : testing p + weigh testing n (update pc i q) ≡ testing q + weigh testing n pc
    leaders : leader p + weigh leader n (update pc i q) ≡ leader q + weigh leader n pc
    throughs : through p + weigh through n (update pc i q) ≡ through q + weigh through n pc
    room : weigh arrived n (update pc i q) ≤ n
    holds : guarding p ≤ weigh guarding n pc
    tests : testing p ≤ weigh testing n pc
    leads : leader p ≤ weigh leader n pc
    goes : through p ≤ weigh through n pc

  moves : (p q : Pc) → pc i ≡ p → Moves p q
  moves p q here = rw (← here) (record {
    arrivals = weigh-update arrived n pc i q lt;
    holders = weigh-update guarding n pc i q lt;
    testers = weigh-update testing n pc i q lt;
    leaders = weigh-update leader n pc i q lt;
    throughs = weigh-update through n pc i q lt;
    room = weigh-le arrived (λ a. ground arith) n (update pc i q);
    holds = weight-le-weigh guarding n pc i lt;
    tests = weight-le-weigh testing n pc i lt;
    leads = weight-le-weigh leader n pc i lt;
    goes = weight-le-weigh through n pc i lt;
  })

  -- The invariant holds after any access of a hart.
  pub access-Inv : (p : Pc) → pc i ≡ p → Inv n (access n m p).0 (update pc i (access n m p).1)
  unfolding access must_wait
  access-Inv spinning here =
      ground (arith, moves spinning trying here, moves spinning spinning here)
  access-Inv trying here = ground (arith, moves trying locked here, moves trying spinning here)
  access-Inv locked here = ground (arith, moves locked counted here)
  access-Inv counted here = ground (arith, moves counted behind here, moves counted ahead here)
  access-Inv behind here = ground (arith, moves behind waiting here)
  access-Inv ahead here = ground (arith, moves ahead leading here)
  access-Inv waiting here = ground (arith, moves waiting passed here, moves waiting waiting here)
  access-Inv leading here = ground (arith, moves leading restoring here)
  access-Inv restoring here = ground (arith, moves restoring passed here)
  access-Inv passed here = ground (arith, moves passed passed here)

initial-Inv : (n : ℕ) → 0 < n → Inv n initial.shared initial.pc
initial-Inv n pos = record {
  exact = omega (arith, none_weigh arrived n refl);
  exclusive = inl (refl, omega (arith, none_weigh guarding n refl, none_weigh testing n refl));
  one_leader = inr (pos, omega (arith, none_weigh leader n refl));
  gate = inr (refl, refl, none_weigh through n refl);
}
  where
    none_weigh : (w : Pc → ℕ) (k : ℕ) → w spinning ≡ 0 → weigh w k (λ _. spinning) ≡ 0
    none_weigh w k zero_weight =
        omega (arith, weigh-const w 0 k (λ _. spinning) (λ _ _. zero_weight))

-- The invariant holds after every schedule.
pub run-Inv :
    (n : ℕ) (is : List ℕ) (s : System)
    → n < 2 ^ 64
    → IsSchedule n is
    → Inv n s.shared s.pc
    → Inv n (run n is s).shared (run n is s).pc
unfolding run step
run-Inv n [] s fits ok inv = inv
run-Inv n (i ∷ is) s fits ok inv =
    run-Inv n is (step n i s) fits ok.1 (access-Inv fits inv i ok.0 (s.pc i) refl)

pub reached-Inv :
    (n : ℕ) (is : List ℕ)
    → 0 < n
    → n < 2 ^ 64
    → IsSchedule n is
    → Inv n (run n is initial).shared (run n is initial).pc
reached-Inv n is pos fits ok = run-Inv n is initial fits ok (initial-Inv n pos)
