-- ===== src/Printing/Refines.antt =====
-- Each step of the harts is a step of the abstract machine or none, so every run prints whole calls.
use lib_checkpoint.Common.{
  ℕ, ◌<◌, ◌≡◌, ◌≢◌, ◌∙◌, refl, ap, sym, arith, true, false, List, [], ◌∷◌, ◌++◌, All, update,
  ℕ_discrete,
}
use mathlib.Core.List.{append-nil}
use lib_checkpoint.Common.Sums.{weigh, weight-le-weigh}
use lib_checkpoint.Spinlock.{taken, is_true}
use lib_checkpoint.Printing.{
  Message, Port, Pc, between, spinning, trying, printing, access, System, step, run, initial,
}
use lib_checkpoint.Printing.Invariant.{inside, Inv, access-Inv, open-Inv}
use lib_checkpoint.Printing.Atomic.{
  Atomic, none_printed, todo_of, left_of, pending, pending_none, IsAtomic, reshape, stays, begins,
  prints, update-there,
}

-- With one hart in `vprintf`, the sum is one.
inside_one :
    (n i lock : ℕ) (pc : ℕ → Pc) → i < n → Inv n lock pc → inside (pc i) ≡ 1 → weigh inside n pc ≡ 1
inside_one n i lock pc lt inv here = ground (arith, inv.exclusive, weight-le-weigh inside n pc i lt)

module _ (calls : ℕ → List Message) (n : ℕ) (s : Port) (pc : ℕ → Pc) (i : ℕ) (lt : i < n) where
  -- A step from `p` to `q` that prints nothing and begins no call.
  quiet :
      (t : Port) (p q : Pc)
      → pc i ≡ p
      → t.output ≡ s.output
      → left_of q ≡ left_of p
      → todo_of q ≡ todo_of p
      → IsAtomic calls n s pc
      → IsAtomic calls n t (update pc i q)
  quiet t p q here out left todo =
      stays calls n s pc i t q out (left ∙ sym (ap left_of here)) (todo ∙ sym (ap todo_of here))

  not_taken : s.lock ≡ 0 → is_true s.lock ≡ false
  not_taken free = ground arith

  is_taken : s.lock ≢ 0 → is_true s.lock ≡ true
  is_taken busy = ground arith

  takes :
      (m : Message) (ms : List Message)
      → pc i ≡ trying m ms
      → s.lock ≡ 0
      → Inv n s.lock pc
      → Inv n taken (update pc i (printing m ms))
      → IsAtomic calls n s pc
      → IsAtomic calls n (record s { lock = taken }) (update pc i (printing m ms))
  takes m ms here free inv after =
      begins calls n s pc i (record s { lock = taken }) m ms refl here lt
        (ground (arith, inv.exclusive)) (ground (arith, after.exclusive))

  access-IsAtomic :
      (p : Pc)
      → pc i ≡ p
      → Inv n s.lock pc
      → Inv n (access s p).0.lock (update pc i (access s p).1)
      → IsAtomic calls n s pc
      → IsAtomic calls n (access s p).0 (update pc i (access s p).1)
  unfolding access
  access-IsAtomic (between []) here inv after before =
      quiet s (between []) (between []) here refl refl refl before
  access-IsAtomic (between (m ∷ ms)) here inv after before =
      quiet s (between (m ∷ ms)) (spinning m ms) here refl refl refl before
  access-IsAtomic (spinning m ms) here inv after before =
      quiet s (spinning m ms) _ here refl (ground arith) (ground arith) before
  access-IsAtomic (trying m ms) here inv after before = elim (ℕ_discrete s.lock 0) [
    | yes free ↦
        rw (not_taken free) (takes m ms here free inv (rw (not_taken free) at after) before)
    | no busy ↦
        rw (is_taken busy) (
          quiet (record s { lock = taken }) (trying m ms) (spinning m ms) here refl refl refl
            before)
  ]
  access-IsAtomic (printing (c ∷ cs) ms) here inv after before =
      prints calls n s pc i (access s (printing (c ∷ cs) ms)).0 c cs ms refl here lt
        (inside_one n i s.lock pc lt inv (ap inside here))
        (inside_one n i s.lock (update pc i (printing cs ms)) lt after
          (ap inside (update-there pc i (printing cs ms))))
        before
  access-IsAtomic (printing [] ms) here inv after before =
      quiet (access s (printing [] ms)).0 (printing [] ms) (between ms) here refl refl refl before

calls_whole : (calls : ℕ → List Message) (n : ℕ) → pending n (initial calls).pc ≡ []
calls_whole calls n = pending_none n (initial calls).pc (none_inside n)
  where
    none_inside : (n : ℕ) → weigh inside n (initial calls).pc ≡ 0
    none_inside n = ground (arith, (open-Inv n calls).exclusive)

module _ (calls : ℕ → List Message) (n : ℕ) where
  pub run-IsAtomic :
      (is : List ℕ) (s : System)
      → All (λ i. i < n) is
      → Inv n s.port.lock s.pc
      → IsAtomic calls n s.port s.pc
      → Inv n (run is s).port.lock (run is s).pc × IsAtomic calls n (run is s).port (run is s).pc
  unfolding run step
  run-IsAtomic [] s ok inv before = (inv, before)
  run-IsAtomic (i ∷ is) s ok inv before =
      let after = access-Inv n s.pc i ok.0 s.port (s.pc i) inv refl in
      run-IsAtomic is (step i s) ok.1 after
        (access-IsAtomic calls n s.port s.pc i ok.0 (s.pc i) refl inv after before)

  pub reached :
      (is : List ℕ)
      → All (λ i. i < n) is
      → Inv n (run is (initial calls)).port.lock (run is (initial calls)).pc
        × IsAtomic calls n (run is (initial calls)).port (run is (initial calls)).pc
  reached is ok =
      run-IsAtomic is (initial calls) ok (open-Inv n calls)
        (reshape (λ j. refl) (sym (calls_whole calls n)) none_printed)

  -- However `n` harts that print by `mt_printf` are interleaved, the output is one that the
  -- abstract machine gives, which prints whole calls, each hart's in its order, once the hart in
  -- `vprintf`, if there is one, has printed the bytes that it has left.
  pub mt_printf_refines :
      (is : List ℕ)
      → All (λ i. i < n) is
      → Atomic calls
          (λ i. todo_of ((run is (initial calls)).pc i))
          ((run is (initial calls)).port.output ++ pending n (run is (initial calls)).pc)
  mt_printf_refines is ok = (reached is ok).1

  -- However `n` harts that print by `mt_printf` are interleaved, while the lock is free the output
  -- is one that the abstract machine gives: whole calls, each hart's in its order.
  pub output_whole :
      (is : List ℕ)
      → All (λ i. i < n) is
      → (run is (initial calls)).port.lock ≡ 0
      → Atomic calls
          (λ i. todo_of ((run is (initial calls)).pc i))
          (run is (initial calls)).port.output
  output_whole is ok free =
      let s = run is (initial calls) in
      let (inv, atomic) = reached is ok in
      reshape (λ j. refl) (rw (pending_none n s.pc (ground (arith, inv.exclusive))) (append-nil _))
        atomic
