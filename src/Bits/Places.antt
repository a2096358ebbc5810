-- ===== src/Bits/Places.antt =====
-- Powers of two, and numbers moved to a place, as arithmetic.
use lib_checkpoint.Common.{ℕ, zero, suc, ◌+◌, ◌-◌, ◌*◌, ◌/◌, ◌%◌, ◌^◌, ◌<◌, ◌≡◌, arith, ap}
use native.Mathlib.Nat.{
  one-le-pow, pow-suc, zero-add, suc-add, mul-lt-mul_of_pos_right, mod-eq_of_lt, mul-div_left,
  add-mul-mod_self_right,
}

pub pow_add : (a b : ℕ) → 2 ^ (a + b) ≡ 2 ^ a * 2 ^ b
pow_add zero b = rw zero-add (omega arith)
pow_add (suc a) b =
    rw suc-add
      (omega (arith, pow_add a b, pow-suc 2 (a + b), ap (λ (t : ℕ). t * 2 ^ b) (pow-suc 2 a)))

pub some-pow : (n : ℕ) → 0 < 2 ^ n
some-pow n = omega (arith, one-le-pow n 2)

-- A word less the mask of a field, whose place, width and rest are powers of two.
pub above : (p q r : ℕ) → 0 < p → 0 < q → 0 < r → r * (p * q) - (q - 1) * p ≡ (1 + (r - 1) * q) * p
above p zero r _ some _ = absurd (omega arith)
above p (suc q) zero _ _ some = absurd (omega arith)
above p (suc q) (suc r) _ _ _ = grind arith

-- A number of the width of a field, moved to its place, fits the word.
pub below : (x p q r : ℕ) → x < q → 0 < p → 0 < r → x * p < r * (p * q)
below x zero q r h some _ = absurd (omega arith)
below x (suc p) q zero h _ some = absurd (omega arith)
below x (suc p) q (suc r) h _ _ = grind (arith, mul-lt-mul_of_pos_right {k = suc p} h (omega arith))

pub lowest_digit : (p q r : ℕ) → 1 < q → 0 < p → (1 + r * q) * p / p % q ≡ 1
lowest_digit p q r wide some =
    rw (mul-div_left (1 + r * q) some, add-mul-mod_self_right 1 r q) (mod-eq_of_lt wide)

pub one-lt-pow : (w : ℕ) → 0 < w → 1 < 2 ^ w
one-lt-pow zero h = absurd (omega arith)
one-lt-pow (suc w) h = omega (arith, pow-suc 2 w, one-le-pow w 2)
