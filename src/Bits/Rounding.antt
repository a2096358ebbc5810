-- ===== src/Bits/Rounding.antt =====
-- The roundings give the nearest multiple on their side.
use lib_checkpoint.Common.{ℕ, zero, suc, ◌+◌, ◌*◌, ◌/◌, ◌%◌, ◌^◌, ◌≤◌, ◌<◌, ◌≡◌, arith, ap}
use native.Mathlib.Nat.{div-mul-le_self, div-le_self, lt-div-mul-add, mul-mod_left}
use lib_checkpoint.Bits.{before, roundup, rounddown}

rounddown_lem :
    (a b : ℕ)
    → 0 < b
    → a < 2 ^ 64
    → (rounddown a b ≤ a) × (a < rounddown a b + b) × (rounddown a b % b ≡ 0)
rounddown_lem a b pos fits =
    rw kept (div-mul-le_self a b, lt-div-mul-add pos, mul-mod_left (a / b) b)
  where
    kept : rounddown a b ≡ a / b * b
    kept = omega (arith, div-mul-le_self a b)

roundup_lem :
    (a b : ℕ)
    → 0 < a
    → 0 < b
    → a + b ≤ 2 ^ 64
    → (a ≤ roundup a b) × (roundup a b < a + b) × (roundup a b % b ≡ 0)
roundup_lem zero b some pos fits = absurd (omega arith)
roundup_lem (suc a) b some pos fits = rw kept (
  omega (arith, lt-div-mul-add pos),
  omega (arith, div-mul-le_self a b),
  mul-mod_left (a / b + 1) b,
)
  where
    less : before (suc a) ≡ a
    less = omega arith

    round : (before (suc a) / b + 1) % 2 ^ 64 ≡ a / b + 1
    round = rw less (omega (arith, div-le_self a b))

    kept : roundup (suc a) b ≡ (a / b + 1) * b
    kept = omega (arith, div-mul-le_self a b, ap (λ (t : ℕ). t * b) round)

-- For a word and a divisor that are not zero, with a sum of at most `2 ^ 64`, ROUNDDOWN gives the
-- greatest multiple of the divisor that is not above the word, and ROUNDUP the least that is not
-- below it.
nearest_multiples :
    (a b : ℕ)
    → 0 < a
    → 0 < b
    → a + b ≤ 2 ^ 64
    → ((rounddown a b ≤ a) × (a < rounddown a b + b) × (rounddown a b % b ≡ 0))
      × (a ≤ roundup a b)
      × (roundup a b < a + b)
      × (roundup a b % b ≡ 0)
nearest_multiples a b some pos fits =
    let (above, near, exact) = roundup_lem a b some pos fits in
    (rounddown_lem a b pos (omega arith), above, near, exact)
