-- ===== src/Boot/Handover.antt =====
-- src/gcpt.c, the start of `gcpt_c_start`: hart 0 clears the bss and then sets `bss_lock`, which lies
-- there too; the other harts wait for that. A transition is one access of one hart, or, once a hart
-- is past this point, any store of the program but to `bss_lock`, which nothing else writes.
pub mod Invariant
pub mod Opening
pub mod Variables
pub mod Tests
use lib_checkpoint.Common.{ℕ, ◌+◌, ◌≤◌, ◌<◌, ◌≡◌, ◌≢◌, ◌⊎◌, update}
use lib_checkpoint.Memory.{Memory, put, load64, store64}
use lib_checkpoint.Boot.{Symbols}

-- where hart 0 stands
pub data First : Type 0 where
  clearing : ℕ → First  -- in the loop of `clear_bss`, at index `i`
  cleared : First  -- before `atomic_set(&bss_lock.lock, 1)`
  opened : First

-- where another hart stands
pub data Later : Type 0 where
  looking : Later  -- `while (atomic_read(&bss_lock.lock) == 0)`
  past : Later

pub record Bss : Type 0 where
  pub mem : Memory
  pub first : First
  pub later : ℕ → Later

-- Some hart has left this part of the program.
pub data IsRunning (s : Bss) : Type 0 where
  first_runs : s.first ≡ opened → IsRunning s
  later_runs : (i : ℕ) → s.later i ≡ past → IsRunning s

pub data Step (y : Symbols) : Bss → Bss → Type 0 where
  clear :
      (s : Bss) (i : ℕ)
      → s.first ≡ clearing i
      → y.s_bss + i < y.e_bss
      → Step y s (record s { mem = put s.mem (y.s_bss + i) 0; first = clearing (i + 1) })
  end_loop :
      (s : Bss) (i : ℕ)
      → s.first ≡ clearing i
      → y.e_bss ≤ y.s_bss + i
      → Step y s (record s { first = cleared })
  open_lock :
      (s : Bss)
      → s.first ≡ cleared
      → Step y s (record s { mem = store64 s.mem y.bss_lock 1; first = opened })
  wait : (s : Bss) (i : ℕ) → s.later i ≡ looking → load64 s.mem y.bss_lock ≡ 0 → Step y s s
  pass :
      (s : Bss) (i : ℕ)
      → s.later i ≡ looking
      → load64 s.mem y.bss_lock ≢ 0
      → Step y s (record s { later = update s.later i past })
  use_memory :
      (s : Bss) (j v : ℕ)
      → IsRunning s
      → (j < y.bss_lock) ⊎ (y.bss_lock + 8 ≤ j)
      → Step y s (record s { mem = put s.mem j v })

pub data Reach (y : Symbols) (s : Bss) : Bss → Type 0 where
  here : Reach y s s
  next : {t u : Bss} → Reach y s t → Step y t u → Reach y s u

abbrev pub initial : Memory → Bss
initial m = record { mem = m; first = clearing 0; later = λ _. looking }
