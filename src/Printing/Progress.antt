-- ===== src/Printing/Progress.antt =====
-- Printing gets done: no hart keeps another from its calls for good.
use lib_checkpoint.Common.{
  ℕ, zero, suc, ◌+◌, ◌≤◌, ◌<◌, ◌≡◌, inl, inr, refl, ap, arith, List, [], ◌∷◌, length,
}
use mathlib.Core.List.{append-nil}
use lib_checkpoint.Common.Schedule.{IsSchedule, finish}
use lib_checkpoint.Common.Sums.{weigh, weigh-update, weigh-find, weight-le-weigh}
use lib_checkpoint.Printing.{
  Message, Port, Pc, between, spinning, trying, printing, access, System, step, run, initial,
}
use lib_checkpoint.Printing.Invariant.{inside, Inv}
use lib_checkpoint.Printing.Atomic.{Atomic, IsAtomic, todo_of, pending_none, reshape}
use lib_checkpoint.Printing.Refines.{run-IsAtomic, reached}

-- the steps that the calls of a hart take at most, but for spinning: one for each byte, and four more
-- for each call
abbrev pub cost : List Message → ℕ
cost [] = 0
cost (m ∷ ms) = length m + 4 + cost ms

-- those that a hart has before it
abbrev pub left : Pc → ℕ
left (between ms) = cost ms
left (spinning m ms) = length m + 3 + cost ms
left (trying m ms) = length m + 2 + cost ms
left (printing cs ms) = length cs + 1 + cost ms

abbrev CanGo : ℕ → Pc → Type 0
CanGo lock (between []) = ⊥
CanGo lock (between (m ∷ ms)) = Unit {0}
CanGo lock (spinning m ms) = lock ≡ 0
CanGo lock (trying m ms) = lock ≡ 0
CanGo lock (printing cs ms) = Unit {0}

access-left : (s : Port) (p : Pc) → CanGo s.lock p → left (access s p).1 < left p
unfolding access
access-left s (between []) can = absurd can
access-left s (between (m ∷ ms)) can = omega arith
access-left s (spinning m ms) can = ground arith
access-left s (trying m ms) can = ground arith
access-left s (printing (c ∷ cs) ms) can = omega arith
access-left s (printing [] ms) can = omega arith

-- A hart in `vprintf` can go, and so can any with something to do while the lock is free.
inside-CanGo : (lock : ℕ) (p : Pc) → 0 < inside p → CanGo lock p
inside-CanGo lock (printing cs ms) h = tt
inside-CanGo lock (between ms) h = absurd (omega arith)
inside-CanGo lock (spinning m ms) h = absurd (omega arith)
inside-CanGo lock (trying m ms) h = absurd (omega arith)

free-CanGo : (lock : ℕ) (p : Pc) → lock ≡ 0 → 0 < left p → CanGo lock p
free-CanGo lock (printing cs ms) free h = tt
free-CanGo lock (between []) free h = absurd (omega arith)
free-CanGo lock (between (m ∷ ms)) free h = tt
free-CanGo lock (spinning m ms) free h = free
free-CanGo lock (trying m ms) free h = free

done-between : (p : Pc) → left p ≡ 0 → p ≡ between []
done-between (between []) z = refl
done-between (between (m ∷ ms)) z = absurd (omega arith)
done-between (spinning m ms) z = absurd (omega arith)
done-between (trying m ms) z = absurd (omega arith)
done-between (printing cs ms) z = absurd (omega arith)

module _ (calls : ℕ → List Message) (n : ℕ) where
  abbrev IsReached : System → Type 0
  IsReached s = Inv n s.port.lock s.pc × IsAtomic calls n s.port s.pc

  someone_can :
      (s : System)
      → Inv n s.port.lock s.pc
      → 0 < weigh left n s.pc
      → (i : ℕ) × (i < n) × CanGo s.port.lock (s.pc i)
  someone_can s inv more = elim inv.exclusive [
    | inl (free, _) ↦
        let (i, lt, some) = weigh-find left n s.pc more in
        (i, lt, free-CanGo s.port.lock (s.pc i) free some)
    | inr (_, one) ↦
        let (i, lt, some) = weigh-find inside n s.pc (omega (arith, one)) in
        (i, lt, inside-CanGo s.port.lock (s.pc i) some)
  ]

  step-left :
      (i : ℕ) (s : System)
      → i < n
      → CanGo s.port.lock (s.pc i)
      → weigh left n (step i s).pc < weigh left n s.pc
  unfolding step
  step-left i s lt can = omega (
    arith,
    access-left s.port (s.pc i) can,
    weigh-update left n s.pc i (access s.port (s.pc i)).1 lt,
  )

  go :
      (s : System)
      → IsReached s
      → 0 < weigh left n s.pc
      → (i : ℕ) × (i < n) × IsReached (step i s) × (weigh left n (step i s).pc < weigh left n s.pc)
  unfolding run
  go s (inv, atomic) more =
      let (i, lt, can) = someone_can s inv more in
      (i, lt, run-IsAtomic calls n (i ∷ []) s (lt, tt) inv atomic, step-left i s lt can)

  -- A hart with nothing left is not in `vprintf`.
  quiet : (k : ℕ) (pc : ℕ → Pc) → weigh left k pc ≤ 0 → weigh inside k pc ≡ 0
  unfolding weigh
  quiet zero pc none = refl
  quiet (suc k) pc none =
      omega (arith, ap inside (done-between (pc k) (omega arith)), quiet k pc (omega arith))

  -- However `n` harts that print by `mt_printf` have been interleaved so far, some further schedule,
  -- of at most one step for each byte left and four for each call, lets all of them make all their
  -- calls. The lock is then free, and the output is whole calls, each hart's in its order.
  pub all_printed :
      (is : List ℕ)
      → IsSchedule n is
      → (more : List ℕ) × IsSchedule n more
        × (length more ≤ weigh left n (run is (initial calls)).pc)
        × ((i : ℕ) → i < n → (run more (run is (initial calls))).pc i ≡ between [])
        × ((run more (run is (initial calls))).port.lock ≡ 0)
        × Atomic calls
            (λ i. todo_of ((run more (run is (initial calls))).pc i))
            (run more (run is (initial calls))).port.output
  unfolding run
  all_printed is ok =
      let s = run is (initial calls) in
      let (more, ok', short, (inv, atomic), none) =
        finish n step IsReached (λ (s : System). weigh left n s.pc) go run (λ s. refl)
          (λ i is s. refl) (weigh left n s.pc) s (reached calls n is ok) (omega arith) in
      let t = run more s in
      let still = quiet n t.pc none in
      (
        more,
        ok',
        short,
        λ i lt. done-between (t.pc i) (omega (arith, weight-le-weigh left n t.pc i lt, none)),
        ground (arith, inv.exclusive, still),
        reshape (λ j. refl) (rw (pending_none n t.pc still) (append-nil _)) atomic,
      )
