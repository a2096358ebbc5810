-- ===== src/Boot/Handover/Tests.antt =====
-- A bss with the lock and the variables of the meeting; hart 1 passes.
use lib_checkpoint.Common.{
  ℕ, zero, suc, ◌+◌, ◌≤◌, ◌≡◌, inr, refl, arith, ◌==◌, if◌then◌else◌, update,
}
use lib_checkpoint.Memory.{Memory, put, load32, load64, store64}
use lib_checkpoint.Memory.Laws.{load64-store64}
use lib_checkpoint.Barrier
use lib_checkpoint.Boot.{Symbols}
use lib_checkpoint.Boot.Tests.{symbols}
use lib_checkpoint.Boot.Handover.Variables.{Variables, meeting_of, meeting_starts}
use lib_checkpoint.Boot.Handover.{
  clearing, cleared, opened, past, Bss, clear, end_loop, open_lock, pass, Reach, here, next,
  initial,
}
use lib_checkpoint.Boot.Handover.Invariant.{none_runs_early}
use lib_checkpoint.Boot.Handover.Opening.{wait_ends}

-- Four double words of bss, the lock first.
abbrev wide : Symbols
wide = record symbols { e_bss = 0x80010020 }

-- Every byte is zero but that before the bss and one in it.
abbrev garbage : Memory
garbage j = if j == 0x8000ffff then 7 else if j == 0x80010010 then 7 else 0

shut : load64 garbage wide.bss_lock ≡ 0
unfolding load64 load32
shut = refl

-- hart 0 after `n` bytes
abbrev cleared_to : ℕ → Bss
cleared_to zero = initial garbage
cleared_to (suc n) = record (cleared_to n) {
  mem = put (cleared_to n).mem (wide.s_bss + n) 0;
  first = clearing (n + 1);
}

first_of : (n : ℕ) → (cleared_to n).first ≡ clearing n
first_of zero = refl
first_of (suc n) = ground arith

clears : (n : ℕ) → n ≤ 32 → Reach wide (initial garbage) (cleared_to n)
clears zero h = here
clears (suc n) h = next (clears n (omega arith)) (clear (cleared_to n) n (first_of n) (omega arith))

abbrev all_cleared : Bss
all_cleared = record (cleared_to 32) { first = cleared }

Reach-cleared : Reach wide (initial garbage) all_cleared
Reach-cleared =
    next (clears 32 (omega arith)) (end_loop (cleared_to 32) 32 (first_of 32) (omega arith))

abbrev all_opened : Bss
all_opened = record all_cleared { mem = store64 all_cleared.mem wide.bss_lock 1; first = opened }

Reach-opened : Reach wide (initial garbage) all_opened
Reach-opened = next Reach-cleared (open_lock all_cleared refl)

abbrev one_past : Bss
one_past = record all_opened { later = update all_opened.later 1 past }

Reach-past : Reach wide (initial garbage) one_past
Reach-past = next Reach-opened (
    pass all_opened 1 refl
      (λ e. omega (arith, load64-store64 all_cleared.mem wide.bss_lock 1 (omega arith))))

none_runs_early_example : one_past.first ≡ opened
none_runs_early_example = none_runs_early wide garbage shut one_past 1 (omega arith) Reach-past refl

wait_ends_example : (t : Bss) × Reach wide (cleared_to 3) t × (t.later 2 ≡ past)
wait_ends_example =
    wait_ends wide garbage (cleared_to 3) 2 shut (omega arith) (clears 3 (omega arith))

abbrev variables : Variables
variables = record {
  restore_lock = 0x80010008;
  restore_counter = 0x80010010;
  release_restore = 0x80010018;
}

meeting_starts_example :
    meeting_of variables (store64 all_cleared.mem wide.bss_lock 1) ≡ Barrier.initial.shared
meeting_starts_example =
    meeting_starts wide garbage shut all_cleared (omega arith) Reach-cleared refl variables
      (omega arith, omega arith, inr (omega arith)) (omega arith, omega arith, inr (omega arith))
      (omega arith, omega arith, inr (omega arith))
