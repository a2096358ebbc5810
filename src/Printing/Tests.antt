-- ===== src/Printing/Tests.antt =====
-- Two harts that print; hart 1 has to wait for the lock.
use lib_checkpoint.Common.{length, ◌≤◌, ◌<◌, ℕ, zero, suc, ◌≡◌, refl, arith, List, [], ◌∷◌, ◌++◌}
use lib_checkpoint.Printing.Progress.{left, all_printed}
use lib_checkpoint.Common.Schedule.{IsSchedule}
use lib_checkpoint.Common.Sums.{weigh}
use lib_checkpoint.Printing.{between, Message, access, step, run, initial}
use lib_checkpoint.Printing.Atomic.{Atomic, todo_of, pending}
use lib_checkpoint.Printing.Refines.{mt_printf_refines}

abbrev calls : ℕ → List Message
calls zero = (72 ∷ 105 ∷ []) ∷ []
calls (suc zero) = (33 ∷ []) ∷ []
calls _ = []

-- Hart 0 has put out its first byte while hart 1 waits for the lock.
abbrev halfway : List ℕ
halfway = 0 ∷ 0 ∷ 0 ∷ 1 ∷ 0 ∷ 1 ∷ []

abbrev whole : List ℕ
whole = halfway ++ 0 ∷ 0 ∷ 1 ∷ 1 ∷ 1 ∷ 1 ∷ []

printing_test :
    ((run halfway (initial calls)).port.output ≡ 72 ∷ [])
    × (pending 2 (run halfway (initial calls)).pc ≡ 105 ∷ [])
    × ((run whole (initial calls)).port.output ≡ 72 ∷ 105 ∷ 33 ∷ [])
    × ((run whole (initial calls)).port.lock ≡ 0)
unfolding run step access pending
printing_test = (refl, refl, refl, refl)

mt_printf_refines_example :
    Atomic calls
      (λ i. todo_of ((run halfway (initial calls)).pc i))
      ((run halfway (initial calls)).port.output ++ pending 2 (run halfway (initial calls)).pc)
mt_printf_refines_example = mt_printf_refines calls 2 halfway (omega arith)

all_printed_example :
    (more : List ℕ) × IsSchedule 2 more
    × (length more ≤ weigh left 2 (run halfway (initial calls)).pc)
    × ((i : ℕ) → i < 2 → (run more (run halfway (initial calls))).pc i ≡ between [])
    × ((run more (run halfway (initial calls))).port.lock ≡ 0)
    × Atomic calls
        (λ i. todo_of ((run more (run halfway (initial calls))).pc i))
        (run more (run halfway (initial calls))).port.output
all_printed_example = all_printed calls 2 halfway (omega arith)
