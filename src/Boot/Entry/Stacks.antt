-- ===== src/Boot/Entry/Stacks.antt =====
-- What a hart takes into C: its number, where the restorer was started, and a stack of its own.
use lib_checkpoint.Common.{ℕ, ◌+◌, ◌^◌, ◌≤◌, ◌<◌, ◌≢◌, ◌⊎◌, arith}
use lib_checkpoint.Jal.Slots.{slot_count}
use lib_checkpoint.Boot.Entry.{Labels, stack_space, stack_pointer}

-- The 4096 bytes below the stack pointer of hart `a` lie in the space for stacks, and have none in
-- common with those of hart `b`, for the harts that have a slot and a space that does not wrap.
pub stacks_apart :
    (y : Labels) (a b : ℕ)
    → y.gcpt_stack + stack_space < 2 ^ 64
    → a < slot_count
    → b < slot_count
    → a ≢ b
    → (y.gcpt_stack + 4096 ≤ stack_pointer y a)
      × (stack_pointer y a ≤ y.gcpt_stack + stack_space)
      × ((stack_pointer y a + 4096 ≤ stack_pointer y b)
          ⊎ (stack_pointer y b + 4096 ≤ stack_pointer y a))
unfolding stack_pointer
stacks_apart y a b fits ha hb ne = grind arith
