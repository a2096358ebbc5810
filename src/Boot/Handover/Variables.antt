-- ===== src/Boot/Handover/Variables.antt =====
-- The variables that the harts share later lie in the bss, so the hand-over is what initialises them.
use lib_checkpoint.Common.{ℕ, ◌+◌, ◌≤◌, ◌<◌, ◌≡◌, ◌⊎◌, ◌∙◌, arith}
use lib_checkpoint.Memory.{Memory, load32, load64, store64}
use lib_checkpoint.Memory.Laws.{load64-store64_apart}
use lib_checkpoint.Utils.Laws.{clear_bss_lem}
use lib_checkpoint.Barrier
use lib_checkpoint.Barrier.{Shared}
use lib_checkpoint.Boot.{Symbols}
use lib_checkpoint.Boot.Handover.{cleared, Bss, Reach, initial}
use lib_checkpoint.Boot.Handover.Invariant.{handover_clears}

-- The addresses of `globash_restore_lock`, `global_atomic_restore_counter` and `release_restore`.
pub record Variables : Type 0 where
  pub restore_lock : ℕ
  pub restore_counter : ℕ
  pub release_restore : ℕ

-- the variables of the meeting, as they stand in memory, before any write of the clock
abbrev pub meeting_of : Variables → Memory → Shared
meeting_of v m = record {
  lock = load64 m v.restore_lock;
  counter = load64 m v.restore_counter;
  release = load64 m v.release_restore;
  clock_writes = 0;
}

-- A double word of the bss beside `bss_lock`.
abbrev pub IsVariable : Symbols → ℕ → Type 0
IsVariable y a = (y.s_bss ≤ a) × (a + 8 ≤ y.e_bss) × ((a + 8 ≤ y.bss_lock) ⊎ (y.bss_lock + 8 ≤ a))

module _ (y : Symbols) (m : Memory) (shut : load64 m y.bss_lock ≡ 0) (s : Bss)
    (ordered : y.s_bss ≤ y.e_bss) (reach : Reach y (initial m) s) (at : s.first ≡ cleared) where
  zero_byte : (j : ℕ) → y.s_bss ≤ j → j < y.e_bss → s.mem j ≡ 0
  zero_byte j lo hi = ground (
    arith,
    handover_clears y m shut s j ordered reach at,
    clear_bss_lem y.s_bss y.e_bss m j ordered,
  )

  zero_word : (a : ℕ) → IsVariable y a → load64 (store64 s.mem y.bss_lock 1) a ≡ 0
  unfolding load64 load32
  zero_word a inside = load64-store64_apart s.mem y.bss_lock 1 a inside.2 ∙ word
    where
      word : load64 s.mem a ≡ 0
      word = omega (
        arith,
        zero_byte a (omega arith) (omega arith),
        zero_byte (a + 1) (omega arith) (omega arith),
        zero_byte (a + 2) (omega arith) (omega arith),
        zero_byte (a + 3) (omega arith) (omega arith),
        zero_byte (a + 4) (omega arith) (omega arith),
        zero_byte (a + 4 + 1) (omega arith) (omega arith),
        zero_byte (a + 4 + 2) (omega arith) (omega arith),
        zero_byte (a + 4 + 3) (omega arith) (omega arith),
      )

  -- If the word of `bss_lock` is zero at the start, then, whatever memory held, hart 0 sets the lock on
  -- a memory in which the variables of the meeting, which lie in the bss beside the lock, are as the
  -- meeting starts with them.
  pub meeting_starts :
      (v : Variables)
      → IsVariable y v.restore_lock
      → IsVariable y v.restore_counter
      → IsVariable y v.release_restore
      → meeting_of v (store64 s.mem y.bss_lock 1) ≡ Barrier.initial.shared
  meeting_starts v lock counter release = ground (
    arith,
    zero_word v.restore_lock lock,
    zero_word v.restore_counter counter,
    zero_word v.release_restore release,
  )
