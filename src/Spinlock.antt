-- ===== src/Spinlock.antt =====
-- include/spinlock.h: a lock is an `int64_t`, here by its bits; 0 is free. The functions but
-- `spinlock_lock` are the change that one access makes, with the result of the access beside it.
pub mod Loop
pub mod Fallback
use lib_checkpoint.Common.{
  ℕ, ◌+◌, ◌-◌, ◌%◌, ◌^◌, Bool, true, false, not, List, [], ◌∷◌, Option, none, some, ◌==◌,
  if◌then◌else◌, bit_or,
}

-- `SPINLOCK_INIT`
abbrev pub spinlock_init : ℕ
spinlock_init = 0

-- the value -1 of an `int64_t`
abbrev pub taken : ℕ
taken = 2 ^ 64 - 1

-- The operations of GCC on a 64-bit word: the new value, and the old one as the result.
abbrev pub atomic_add : ℕ → ℕ → ℕ × ℕ
atomic_add value inc = ((value + inc) % 2 ^ 64, value)

abbrev pub atomic_swap : ℕ → ℕ → ℕ × ℕ
atomic_swap value swp = (swp, value)

abbrev pub atomic_or : ℕ → ℕ → ℕ × ℕ
atomic_or value inc = (bit_or value inc, value)

abbrev pub atomic_cas : ℕ → ℕ → ℕ → ℕ × ℕ
atomic_cas value cmp swp = (if value == cmp then swp else value, value)

-- a number as a C condition
abbrev pub is_true : ℕ → Bool
is_true value = not (value == 0)

-- The loop `while (atomic_read(&lock->lock))` goes on.
abbrev pub spinlock_busy : ℕ → Bool
spinlock_busy lock = is_true lock

abbrev pub spinlock_trylock : ℕ → ℕ × ℕ
spinlock_trylock lock = atomic_swap lock taken

abbrev pub spinlock_unlock : ℕ → ℕ
spinlock_unlock lock = 0

-- Interrupts are always off, so their state is the number 0.
abbrev pub disable_irqsave : ℕ
disable_irqsave = 0

-- The two loops of `spinlock_lock`, on the values that the lock has at the accesses of the hart, in
-- their order: those of the inner loop read it, and those with `found_free` exchange it. The result
-- is the lock as it is left, if the values are enough for the function to return.
unfoldable pub lock_loop : Bool → List ℕ → Option ℕ
lock_loop found_free [] = none
lock_loop false (lock ∷ later) = lock_loop (not (spinlock_busy lock)) later
lock_loop true (lock ∷ later) =
    let again = lock_loop false later in
    let (left, res) = spinlock_trylock lock in if is_true res then again else some left

unfoldable pub spinlock_lock : List ℕ → Option ℕ
unfolding lock_loop
spinlock_lock values = lock_loop false values

-- The lock as it is left, and the state of the interrupts.
unfoldable pub spinlock_lock_irqsave : List ℕ → Option (ℕ × ℕ)
spinlock_lock_irqsave values = elim (spinlock_lock values) [
  | none ↦ none
  | some left ↦ some (left, disable_irqsave)
]

-- `enable_irqrestore` does nothing with the state it is given.
abbrev pub spinlock_unlock_irqrestore : ℕ → ℕ → ℕ
spinlock_unlock_irqrestore lock flags = spinlock_unlock lock
