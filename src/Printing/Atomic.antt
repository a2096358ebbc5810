-- ===== src/Printing/Atomic.antt =====
-- What `mt_printf` promises, as a machine of its own that prints a whole call in one step, and that
-- the harts under the lock refine it.
use lib_checkpoint.Common.{
  ℕ, zero, suc, ◌≤◌, ◌<◌, ◌≡◌, ◌∙◌, refl, ap, sym, arith, List, [], ◌∷◌, ◌++◌, update, ℕ_discrete,
}
use mathlib.Core.List.{append_assoc, append-nil}
use mathlib.Core.Path.{subst, fun_ext}
use lib_checkpoint.Common.Sums.{weigh, weight-le-weigh}
use lib_checkpoint.Printing.{Message, Port, Pc, between, spinning, trying, printing}
use lib_checkpoint.Printing.Invariant.{inside}

-- The calls that each hart has still to make, and the output, after whole calls have been printed.
pub data Atomic (calls : ℕ → List Message) : (ℕ → List Message) → List ℕ → Type 0 where
  none_printed : Atomic calls calls []
  printed :
      {todo : ℕ → List Message} {output : List ℕ}
      → Atomic calls todo output
      → (i : ℕ) (m : Message) (ms : List Message) → todo i ≡ m ∷ ms
      → Atomic calls (update todo i ms) (output ++ m)

-- The calls that a hart has not begun to print.
abbrev pub todo_of : Pc → List Message
todo_of (between ms) = ms
todo_of (spinning m ms) = m ∷ ms
todo_of (trying m ms) = m ∷ ms
todo_of (printing left ms) = ms

-- The bytes that a hart has still to print of the call that it is in.
abbrev pub left_of : Pc → List ℕ
left_of (printing left ms) = left
left_of _ = []

-- The bytes that the first `n` harts have still to print of the calls that they are in.
unfoldable pub pending : ℕ → (ℕ → Pc) → List ℕ
pending zero pc = []
pending (suc n) pc = left_of (pc n) ++ pending n pc

outside-left : (p : Pc) → inside p ≡ 0 → left_of p ≡ []
outside-left (printing left ms) h = absurd (omega arith)
outside-left (between _) h = refl
outside-left (spinning _ _) h = refl
outside-left (trying _ _) h = refl

pub pending_none : (n : ℕ) (pc : ℕ → Pc) → weigh inside n pc ≡ 0 → pending n pc ≡ []
unfolding pending weigh
pending_none zero pc h = refl
pending_none (suc n) pc h =
    rw (outside-left (pc n) (omega arith), pending_none n pc (omega arith)) refl

-- If one hart is in `vprintf`, what is pending is what it has left.
pending_one :
    (n : ℕ) (pc : ℕ → Pc) (i : ℕ)
    → i < n
    → weigh inside n pc ≤ 1
    → inside (pc i) ≡ 1
    → pending n pc ≡ left_of (pc i)
unfolding pending weigh
pending_one zero pc i lt one here = absurd (omega arith)
pending_one (suc n) pc i lt one here = elim (ℕ_discrete i n) [
  | yes last ↦
      rw (last, pending_none n pc (omega (arith, ap (λ (k : ℕ). inside (pc k)) last)))
        (append-nil _)
  | no ne ↦
      rw (outside-left (pc n) (omega (arith, weight-le-weigh inside n pc i (omega arith))))
        (pending_one n pc i (omega arith) (omega arith) here)
]

left-update :
    (pc : ℕ → Pc) (i : ℕ) (q : Pc) (j : ℕ)
    → left_of q ≡ left_of (pc i)
    → left_of (update pc i q j) ≡ left_of (pc j)
left-update pc i q j same = ground arith

todo-update :
    (pc : ℕ → Pc) (i : ℕ) (q : Pc) (j : ℕ)
    → todo_of (update pc i q j) ≡ update (λ k. todo_of (pc k)) i (todo_of q) j
todo-update pc i q j = ground arith

todo-update_same :
    (pc : ℕ → Pc) (i : ℕ) (q : Pc) (j : ℕ)
    → todo_of q ≡ todo_of (pc i)
    → todo_of (update pc i q j) ≡ todo_of (pc j)
todo-update_same pc i q j same = ground arith

pending-update_same :
    (n : ℕ) (pc : ℕ → Pc) (i : ℕ) (q : Pc)
    → left_of q ≡ left_of (pc i)
    → pending n (update pc i q) ≡ pending n pc
unfolding pending
pending-update_same zero pc i q same = refl
pending-update_same (suc n) pc i q same =
    rw (left-update pc i q n same, pending-update_same n pc i q same) refl

-- The calls to come, and the output once the call that is being printed is finished.
abbrev pub IsAtomic : (ℕ → List Message) → ℕ → Port → (ℕ → Pc) → Type 0
IsAtomic calls n s pc = Atomic calls (λ i. todo_of (pc i)) (s.output ++ pending n pc)

pub reshape :
    {calls todo todo' : ℕ → List Message} {output output' : List ℕ}
    → ((j : ℕ) → todo j ≡ todo' j)
    → output ≡ output'
    → Atomic calls todo output
    → Atomic calls todo' output'
reshape {calls} {todo'} {output} todos outputs before =
    subst (Atomic calls todo') outputs
      (subst (λ (f : ℕ → List Message). Atomic calls f output) (fun_ext todos) before)

pub update-there : (pc : ℕ → Pc) (i : ℕ) (q : Pc) → update pc i q i ≡ q
update-there pc i q = ground arith

pending-update-inside :
    (n : ℕ) (pc : ℕ → Pc) (i : ℕ) (left : Message) (ms : List Message)
    → i < n
    → weigh inside n (update pc i (printing left ms)) ≡ 1
    → pending n (update pc i (printing left ms)) ≡ left
pending-update-inside n pc i left ms lt one =
    pending_one n (update pc i (printing left ms)) i lt (omega arith)
      (ap inside (update-there pc i (printing left ms)))
    ∙ ap left_of (update-there pc i (printing left ms))

module _ (calls : ℕ → List Message) (n : ℕ) (s : Port) (pc : ℕ → Pc) (i : ℕ) where
  -- A step that prints nothing and begins no call is none of the abstract machine.
  pub stays :
      (t : Port) (q : Pc)
      → t.output ≡ s.output
      → left_of q ≡ left_of (pc i)
      → todo_of q ≡ todo_of (pc i)
      → IsAtomic calls n s pc
      → IsAtomic calls n t (update pc i q)
  stays t q out left todo before =
      reshape (λ j. sym (todo-update_same pc i q j todo))
        (rw (out, pending-update_same n pc i q left) refl) before

  -- The lock is taken: the abstract machine prints the whole call.
  pub begins :
      (t : Port) (m : Message) (ms : List Message)
      → t.output ≡ s.output
      → pc i ≡ trying m ms
      → i < n
      → weigh inside n pc ≡ 0
      → weigh inside n (update pc i (printing m ms)) ≡ 1
      → IsAtomic calls n s pc
      → IsAtomic calls n t (update pc i (printing m ms))
  begins t m ms out here lt none one before =
      reshape (λ j. sym (todo-update pc i (printing m ms) j))
        (rw (out, pending-update-inside n pc i m ms lt one) refl)
        (printed whole i m ms (ap todo_of here))
    where
      whole : Atomic calls (λ j. todo_of (pc j)) s.output
      whole = reshape (λ j. refl) (rw (pending_none n pc none) (append-nil _)) before

  -- A byte goes out.
  pub prints :
      (t : Port) (c : ℕ) (cs : Message) (ms : List Message)
      → t.output ≡ s.output ++ c ∷ []
      → pc i ≡ printing (c ∷ cs) ms
      → i < n
      → weigh inside n pc ≡ 1
      → weigh inside n (update pc i (printing cs ms)) ≡ 1
      → IsAtomic calls n s pc
      → IsAtomic calls n t (update pc i (printing cs ms))
  prints t c cs ms out here lt one one' before =
      reshape (λ j. sym (todo-update_same pc i (printing cs ms) j (sym (ap todo_of here))))
        (rw (out, pending-update-inside n pc i cs ms lt one', was)
          (sym (append_assoc s.output (c ∷ []) cs)))
        before
    where
      was : pending n pc ≡ c ∷ cs
      was = pending_one n pc i lt (omega arith) (ap inside here) ∙ ap left_of here
