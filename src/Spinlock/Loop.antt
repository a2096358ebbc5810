-- ===== src/Spinlock/Loop.antt =====
-- The loops of `spinlock_lock` leave the lock taken, and end once they find it free twice in a row.
use lib_checkpoint.Common.{
  ℕ, zero, suc, ◌≡◌, ◌≢◌, ◌∷◌, ◌++◌, [], List, Bool, true, false, none, some, arith,
}
use lib_checkpoint.Spinlock.{taken, lock_loop, spinlock_lock}

loop_takes :
    (found_free : Bool) (values : List ℕ) (left : ℕ)
    → lock_loop found_free values ≡ some left
    → left ≡ taken
unfolding lock_loop
loop_takes found_free [] left h = ground arith
loop_takes false (zero ∷ later) left h = loop_takes true later left h
loop_takes false (suc v ∷ later) left h = ground (arith, loop_takes false later left)
loop_takes true (zero ∷ later) left h = ground arith
loop_takes true (suc v ∷ later) left h = ground (arith, loop_takes false later left)

-- a lock that is free at two accesses in a row
abbrev free_twice : List ℕ
free_twice = 0 ∷ 0 ∷ []

loop_returns :
    (found_free : Bool) (values : List ℕ) → lock_loop found_free (values ++ free_twice) ≢ none
unfolding lock_loop
loop_returns false [] = ground arith
loop_returns true [] = ground arith
loop_returns false (zero ∷ later) = loop_returns true later
loop_returns false (suc v ∷ later) = ground (arith, loop_returns false later)
loop_returns true (zero ∷ later) = ground arith
loop_returns true (suc v ∷ later) = ground (arith, loop_returns false later)

-- Whatever the hart has seen of the lock before, once it is free at two accesses in a row,
-- `spinlock_lock` returns; and whenever it returns, it leaves the lock taken.
pub spinlock_lock_lem :
    (values : List ℕ)
    → (spinlock_lock (values ++ free_twice) ≢ none)
      × ((left : ℕ) → spinlock_lock values ≡ some left → left ≡ taken)
unfolding spinlock_lock
spinlock_lock_lem values = (loop_returns false values, loop_takes false values)
