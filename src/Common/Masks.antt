-- ===== src/Common/Masks.antt =====
-- A word under a mask and under its complement, and masks of the low bits, at every width.
use Prim.Native.Nat.{
  ℕ, zero, suc, ◌+◌, ◌-◌, ◌*◌, ◌/◌, ◌%◌, ◌^◌, ◌≤◌, ◌<◌, min, max, bit_and, bit_or,
}
use mathlib.Core.Path.{◌≡◌, refl, ap, ◌∙◌, sym}
use native.Mathlib.Nat.{pow-suc, one-le-pow}
use native.Mathlib.Omega.{arith}
use lib_checkpoint.Common.Bits.{
  bit_and_step, bit_or_step, bit_and-zero, bit_or-zero, zero-bit_and, half-bit_and, low-bit_and,
}

max-bit : (a b : ℕ) → max (a % 2) (b % 2) ≤ 1
max-bit a b = ground arith

half-bit_or : (x y : ℕ) → bit_or x y / 2 ≡ bit_or (x / 2) (y / 2)
half-bit_or x y = omega (arith, bit_or_step x y, max-bit x y)

low-bit_or : (x y : ℕ) → bit_or x y % 2 ≡ max (x % 2) (y % 2)
low-bit_or x y = omega (arith, bit_or_step x y, max-bit x y)

min-max : (a b c : ℕ) → min (max a b) c ≡ max (min a c) (min b c)
min-max a b c = ground arith

distrib_up_to :
    (bound x y m : ℕ) → m ≤ bound → bit_and (bit_or x y) m ≡ bit_or (bit_and x m) (bit_and y m)
distrib_up_to bound x y zero h =
    rw (bit_and-zero (bit_or x y), bit_and-zero x, bit_and-zero y) (sym (bit_or-zero 0))
distrib_up_to zero x y (suc m) h = absurd (omega arith)
distrib_up_to (suc bound) x y (suc m) h =
    rw
      (
        bit_and_step (bit_or x y) (suc m),
        bit_or_step (bit_and x (suc m)) (bit_and y (suc m)),
        half-bit_or x y,
        half-bit_and x (suc m),
        half-bit_and y (suc m),
        low-bit_or x y,
        low-bit_and x (suc m),
        low-bit_and y (suc m),
        distrib_up_to bound (x / 2) (y / 2) (suc m / 2) (omega arith),
        min-max (x % 2) (y % 2) (suc m % 2),
      )
      refl

-- A mask takes its bits from both sides of an `or`.
pub bit_and-bit_or : (x y m : ℕ) → bit_and (bit_or x y) m ≡ bit_or (bit_and x m) (bit_and y m)
bit_and-bit_or x y m = distrib_up_to m x y m (omega arith)

same_up_to : (bound x : ℕ) → x ≤ bound → bit_and x x ≡ x
same_up_to bound zero h = zero-bit_and 0
same_up_to zero (suc x) h = absurd (omega arith)
same_up_to (suc bound) (suc x) h =
    ground (arith, bit_and_step (suc x) (suc x), same_up_to bound (suc x / 2) (omega arith))

pub bit_and_self : (x : ℕ) → bit_and x x ≡ x
bit_and_self x = same_up_to x x (omega arith)

pub zero-bit_or : (x : ℕ) → bit_or 0 x ≡ x
zero-bit_or x = same x x (omega arith)
  where
    same : (bound x : ℕ) → x ≤ bound → bit_or 0 x ≡ x
    same bound zero h = bit_or-zero 0
    same zero (suc x) h = absurd (omega arith)
    same (suc bound) (suc x) h =
        ground (arith, bit_or_step 0 (suc x), same bound (suc x / 2) (omega arith))

-- A mask of `n` bits and its complement share no bit.
pub bit_and-complement : (n m : ℕ) → m < 2 ^ n → bit_and (2 ^ n - 1 - m) m ≡ 0
bit_and-complement zero m h = ap (λ (t : ℕ). bit_and t m) spent ∙ zero-bit_and m
  where
    spent : 2 ^ 0 - 1 - m ≡ 0
    spent = omega arith
bit_and-complement (suc n) m h = ground (
  arith,
  pow-suc 2 n,
  one-le-pow n 2,
  bit_and_step (2 ^ suc n - 1 - m) m,
  ap (λ (t : ℕ). bit_and t (m / 2)) (halves n),
  bit_and-complement n (m / 2) (omega (arith, pow-suc 2 n)),
)
  where
    halves : (n : ℕ) → (2 ^ suc n - 1 - m) / 2 ≡ 2 ^ n - 1 - m / 2
    halves n = omega (arith, pow-suc 2 n, one-le-pow n 2)

rejoin : (d m : ℕ) → max (min (d % 2) ((1 - m % 2) % 2)) (min (d % 2) (m % 2)) ≡ d % 2
rejoin d m = ground arith

module _ (n m : ℕ) (h : m < 2 ^ suc n) where
  halves : (2 ^ suc n - 1 - m) / 2 ≡ 2 ^ n - 1 - m / 2
  halves = omega (arith, h, pow-suc 2 n, one-le-pow n 2)

  lowest : (2 ^ suc n - 1 - m) % 2 ≡ (1 - m % 2) % 2
  lowest = omega (arith, h, pow-suc 2 n, one-le-pow n 2)

-- The bits of a word under a complement and those under the mask make up the word.
pub bit_or-complement :
    (n m v : ℕ) → m < 2 ^ n → v < 2 ^ n → bit_or (bit_and v (2 ^ n - 1 - m)) (bit_and v m) ≡ v
bit_or-complement zero m (suc v) small fits = absurd (omega arith)
bit_or-complement zero m zero small fits =
    rw (zero-bit_and (2 ^ 0 - 1 - m), zero-bit_and m) (bit_or-zero 0)
bit_or-complement (suc n) m v small fits =
    rw
      (
        bit_or_step (bit_and v (2 ^ suc n - 1 - m)) (bit_and v m),
        half-bit_and v (2 ^ suc n - 1 - m),
        half-bit_and v m,
        low-bit_and v (2 ^ suc n - 1 - m),
        low-bit_and v m,
        halves n m small,
        lowest n m small,
        rejoin v m,
        bit_or-complement n (m / 2) (v / 2) (omega (arith, pow-suc 2 n))
            (omega (arith, pow-suc 2 n)),
      )
      (omega arith)

fields-low : (k q r : ℕ) → r < 2 ^ k → bit_and (q * 2 ^ k + r) (2 ^ k - 1) ≡ r
fields-low zero q r h = rw (bit_and-zero (q * 2 ^ 0 + r)) (omega arith)
fields-low (suc k) q r h = ground (
  arith,
  pow-suc 2 k,
  one-le-pow k 2,
  ap (λ (t : ℕ). q * t) (pow-suc 2 k),
  bit_and_step (q * 2 ^ suc k + r) (2 ^ suc k - 1),
  fields-low k q (r / 2) (omega (arith, pow-suc 2 k)),
)

-- A mask of `k` low bits is the remainder by `2 ^ k`.
pub bit_and-low : (k a : ℕ) → bit_and a (2 ^ k - 1) ≡ a % 2 ^ k
bit_and-low k a = ground (arith, one-le-pow k 2, fields-low k (a / 2 ^ k) (a % 2 ^ k))
