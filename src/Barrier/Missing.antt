-- ===== src/Barrier/Missing.antt =====
-- When fewer harts come than each has read as the number of harts, the gate stays shut.
use lib_checkpoint.Common.{update, ℕ, ◌+◌, ◌^◌, ◌≤◌, ◌<◌, ◌≡◌, refl, arith, List, [], ◌∷◌}
use lib_checkpoint.Restore.{must_wait}
use lib_checkpoint.Barrier.{
  Shared, Pc, spinning, trying, locked, counted, behind, ahead, waiting, leading, restoring, passed,
  access, System, step, run, initial,
}
use lib_checkpoint.Barrier.Invariant.{arrived, leader, through}
use lib_checkpoint.Common.Schedule.{IsSchedule}
use lib_checkpoint.Common.Sums.{weigh, weigh-update, weight-le-weigh, weigh-le, weigh-const}

-- The counter is exact, and nobody has found it complete.
record IsShut (n : ℕ) (m : Shared) (pc : ℕ → Pc) : Type 0 where
  exact : m.counter ≡ weigh arrived n pc
  closed : m.release ≡ 0
  unset : m.clock_writes ≡ 0
  none_leads : weigh leader n pc ≡ 0
  none_through : weigh through n pc ≡ 0

module _ {n all : ℕ} {m : Shared} {pc : ℕ → Pc} (short : n < all) (fits : all < 2 ^ 64)
    (shut : IsShut n m pc) (i : ℕ) (lt : i < n) where
  -- The sums after hart `i` moves from `p` to `q`, and what it weighed.
  record Moves (p q : Pc) : Type 0 where
    arrivals : arrived p + weigh arrived n (update pc i q) ≡ arrived q + weigh arrived n pc
    leaders : leader p + weigh leader n (update pc i q) ≡ leader q + weigh leader n pc
    throughs : through p + weigh through n (update pc i q) ≡ through q + weigh through n pc
    room : weigh arrived n pc ≤ n
    leads : leader p ≤ weigh leader n pc
    goes : through p ≤ weigh through n pc

  moves : (p q : Pc) → pc i ≡ p → Moves p q
  moves p q here = rw (← here) (record {
    arrivals = weigh-update arrived n pc i q lt;
    leaders = weigh-update leader n pc i q lt;
    throughs = weigh-update through n pc i q lt;
    room = weigh-le arrived (λ a. ground arith) n pc;
    leads = weight-le-weigh leader n pc i lt;
    goes = weight-le-weigh through n pc i lt;
  })

  access-IsShut : (p : Pc) → pc i ≡ p → IsShut n (access all m p).0 (update pc i (access all m p).1)
  unfolding access must_wait
  access-IsShut spinning here =
      ground (arith, moves spinning trying here, moves spinning spinning here)
  access-IsShut trying here = ground (arith, moves trying locked here, moves trying spinning here)
  access-IsShut locked here = ground (arith, moves locked counted here)
  access-IsShut counted here = ground (arith, moves counted behind here)
  access-IsShut behind here = ground (arith, moves behind waiting here)
  access-IsShut ahead here = ground (arith, moves ahead leading here)
  access-IsShut waiting here = ground (arith, moves waiting waiting here)
  access-IsShut leading here = ground (arith, moves leading restoring here)
  access-IsShut restoring here = ground (arith, moves restoring passed here)
  access-IsShut passed here = ground (arith, moves passed passed here)

run-IsShut :
    (n all : ℕ) (is : List ℕ) (s : System)
    → n < all
    → all < 2 ^ 64
    → IsSchedule n is
    → IsShut n s.shared s.pc
    → IsShut n (run all is s).shared (run all is s).pc
unfolding run step
run-IsShut n all [] s short fits ok shut = shut
run-IsShut n all (i ∷ is) s short fits ok shut =
    run-IsShut n all is (step all i s) short fits ok.1
      (access-IsShut short fits shut i ok.0 (s.pc i) refl)

initial-IsShut : (n : ℕ) → IsShut n initial.shared initial.pc
initial-IsShut n = record {
  exact = omega (arith, none_weigh arrived refl);
  closed = refl;
  unset = refl;
  none_leads = none_weigh leader refl;
  none_through = none_weigh through refl;
}
  where
    none_weigh : (w : Pc → ℕ) → w spinning ≡ 0 → weigh w n (λ _. spinning) ≡ 0
    none_weigh w zero_weight = omega (arith, weigh-const w 0 n (λ _. spinning) (λ _ _. zero_weight))

-- If each hart has read more as the number of harts, below `2 ^ 64`, than the `n` that come, then,
-- however these are interleaved, none of them gets past the gate, and the clock is never set.
pub missing_hart_stops_all :
    (n all : ℕ) (is : List ℕ)
    → n < all
    → all < 2 ^ 64
    → IsSchedule n is
    → ((i : ℕ) → i < n → through ((run all is initial).pc i) ≡ 0)
      × ((run all is initial).shared.release ≡ 0)
      × ((run all is initial).shared.clock_writes ≡ 0)
missing_hart_stops_all n all is short fits ok =
    let shut = run-IsShut n all is initial short fits ok (initial-IsShut n) in
    (
      (λ i lt.
          omega (arith, shut.none_through, weight-le-weigh through n (run all is initial).pc i lt)),
      shut.closed,
      shut.unset,
    )
