-- ===== src/Common/Bits.antt =====
-- `&` with the masks of the program, as arithmetic: one step of the digit recursion first, then
-- masks of one or two bits at any place, and of the bits from a place on.
use Prim.Native.Nat.{
  ℕ, zero, suc, ◌+◌, ◌*◌, ◌/◌, ◌%◌, ◌^◌, ◌≤◌, min, max, bit_and, bit_or, digits, bitwise,
  bit_and-bitwise, bit_or-bitwise,
}
use mathlib.Core.Path.{◌≡◌, refl, ap, ◌∙◌, sym}
use native.Mathlib.Nat.{pow-suc, div-div-eq-div-mul}
use native.Mathlib.Omega.{arith}

module _ (rest : ℕ → ℕ) (digit : ℕ → ℕ → ℕ) where
  -- Rounds beyond the first number change nothing; `bound` is for the recursion alone.
  spare_rounds :
      (bound left x y : ℕ)
      → left ≤ bound
      → x ≤ left
      → digits rest digit left x y ≡ bitwise rest digit x y
  spare_rounds bound zero x y _ none = rw (zero_of x none)
    where
      zero_of : (n : ℕ) → n ≤ 0 → n ≡ 0
      zero_of n h = omega arith
  spare_rounds zero (suc left) x y small _ = absurd (omega arith)
  spare_rounds (suc bound) (suc left) zero y small _ = refl
  spare_rounds (suc bound) (suc left) (suc x) y small enough = omega (
    arith,
    spare_rounds bound left (suc x / 2) (y / 2) (omega arith) (omega arith),
    spare_rounds bound x (suc x / 2) (y / 2) (omega arith) (omega arith),
  )

  -- The lowest digit and the others, where the digits that are left over are their own result.
  lowest_digit :
      (x y : ℕ)
      → rest y ≡ rest (y / 2) * 2 + digit 0 (y % 2)
      → bitwise rest digit x y ≡ bitwise rest digit (x / 2) (y / 2) * 2 + digit (x % 2) (y % 2)
  lowest_digit zero y own = own
  lowest_digit (suc x) y own =
      omega (arith, spare_rounds x x (suc x / 2) (y / 2) (omega arith) (omega arith))

pub bit_and_step : (x y : ℕ) → bit_and x y ≡ bit_and (x / 2) (y / 2) * 2 + min (x % 2) (y % 2)
bit_and_step x y = simp bit_and-bitwise (lowest_digit (λ _. 0) min x y (omega arith))

pub bit_or_step : (x y : ℕ) → bit_or x y ≡ bit_or (x / 2) (y / 2) * 2 + max (x % 2) (y % 2)
bit_or_step x y = simp bit_or-bitwise (lowest_digit (λ d. d) max x y (omega arith))

-- A number beside zero, for all numbers up to `bound`.
beside_zero : (bound x : ℕ) → x ≤ bound → (bit_and x 0 ≡ 0) × (bit_or x 0 ≡ x)
beside_zero bound zero _ = (refl, refl)
beside_zero zero (suc x) h = absurd (omega arith)
beside_zero (suc bound) (suc x) h =
    let (none, same) = beside_zero bound (suc x / 2) (omega arith) in
    (omega (arith, none, bit_and_step (suc x) 0), omega (arith, same, bit_or_step (suc x) 0))

pub bit_and-zero : (x : ℕ) → bit_and x 0 ≡ 0
bit_and-zero x = (beside_zero x x (omega arith)).0

pub bit_or-zero : (x : ℕ) → bit_or x 0 ≡ x
bit_or-zero x = (beside_zero x x (omega arith)).1

pub bit_and-one : (a : ℕ) → bit_and a 1 ≡ a % 2
bit_and-one a = omega (arith, bit_and_step a 1, bit_and-zero (a / 2))

pub bit_and-three : (a : ℕ) → bit_and a 3 ≡ a % 4
bit_and-three a = omega (arith, bit_and_step a 3, bit_and-one (a / 2))

pub bit_and-five : (a : ℕ) → bit_and a 5 ≡ a / 4 % 2 * 4 + a % 2
bit_and-five a = omega (arith, bit_and_step a 5, bit_and_step (a / 2) 2, bit_and-one (a / 2 / 2))

bit_and-double : (a b : ℕ) → bit_and a (b * 2) ≡ bit_and (a / 2) b * 2
bit_and-double a b = ground (arith, bit_and_step a (b * 2))

-- A mask moved up by `k` places looks at the bits from place `k` on.
pub bit_and_shift : (k a b : ℕ) → bit_and a (b * 2 ^ k) ≡ bit_and (a / 2 ^ k) b * 2 ^ k
bit_and_shift zero a b = ground arith
bit_and_shift (suc k) a b =
    ap (bit_and a) (regroup b)
    ∙ bit_and_shift k a (b * 2)
    ∙ ap (λ (t : ℕ). t * 2 ^ k) (bit_and-double (a / 2 ^ k) b)
    ∙ ap (λ (t : ℕ). bit_and t b * 2 * 2 ^ k) (halve a)
    ∙ sym (regroup (bit_and (a / 2 ^ suc k) b))
  where
    regroup : (c : ℕ) → c * 2 ^ suc k ≡ c * 2 * 2 ^ k
    regroup c = omega (arith, ap (λ (t : ℕ). c * t) (pow-suc 2 k))

    halve : (c : ℕ) → c / 2 ^ k / 2 ≡ c / 2 ^ suc k
    halve c = div-div-eq-div-mul c (2 ^ k) 2 ∙ ap (λ (t : ℕ). c / t) (sym (pow-suc 2 k))

-- One bit, at any place.
pub bit_and-bit : (k a : ℕ) → bit_and a (1 * 2 ^ k) ≡ a / 2 ^ k % 2 * 2 ^ k
bit_and-bit k a = bit_and_shift k a 1 ∙ ap (λ (t : ℕ). t * 2 ^ k) (bit_and-one (a / 2 ^ k))

-- Two neighbouring bits, at any place.
pub bit_and-pair : (k a : ℕ) → bit_and a (3 * 2 ^ k) ≡ a / 2 ^ k % 4 * 2 ^ k
bit_and-pair k a = bit_and_shift k a 3 ∙ ap (λ (t : ℕ). t * 2 ^ k) (bit_and-three (a / 2 ^ k))

pub zero-bit_and : (y : ℕ) → bit_and 0 y ≡ 0
zero-bit_and y = bit_and-bitwise 0 y

min_digits : (a b : ℕ) → min (a % 2) (b % 2) ≡ min (b % 2) (a % 2)
min_digits a b = ground arith

comm_up_to : (bound x y : ℕ) → x ≤ bound → bit_and x y ≡ bit_and y x
comm_up_to bound zero y h = zero-bit_and y ∙ sym (bit_and-zero y)
comm_up_to zero (suc x) y h = absurd (omega arith)
comm_up_to (suc bound) (suc x) y h = omega (
  arith,
  bit_and_step (suc x) y,
  bit_and_step y (suc x),
  comm_up_to bound (suc x / 2) (y / 2) (omega arith),
)

pub bit_and_comm : (x y : ℕ) → bit_and x y ≡ bit_and y x
bit_and_comm x y = comm_up_to x x y (omega arith)

min-bit : (a b : ℕ) → min (a % 2) (b % 2) ≤ 1
min-bit a b = ground arith

pub half-bit_and : (x y : ℕ) → bit_and x y / 2 ≡ bit_and (x / 2) (y / 2)
half-bit_and x y = omega (arith, bit_and_step x y, min-bit x y)

pub low-bit_and : (x y : ℕ) → bit_and x y % 2 ≡ min (x % 2) (y % 2)
low-bit_and x y = omega (arith, bit_and_step x y, min-bit x y)

min_assoc : (a b c : ℕ) → min (min a b) c ≡ min a (min b c)
min_assoc a b c = ground arith

assoc_up_to : (bound x y z : ℕ) → x ≤ bound → bit_and (bit_and x y) z ≡ bit_and x (bit_and y z)
assoc_up_to bound zero y z h = rw (zero-bit_and y, zero-bit_and z, zero-bit_and (bit_and y z)) refl
assoc_up_to zero (suc x) y z h = absurd (omega arith)
assoc_up_to (suc bound) (suc x) y z h =
    rw
      (
        bit_and_step (bit_and (suc x) y) z,
        bit_and_step (suc x) (bit_and y z),
        half-bit_and (suc x) y,
        half-bit_and y z,
        low-bit_and (suc x) y,
        low-bit_and y z,
        assoc_up_to bound (suc x / 2) (y / 2) (z / 2) (omega arith),
        min_assoc (suc x % 2) (y % 2) (z % 2),
      )
      refl

pub bit_and_assoc : (x y z : ℕ) → bit_and (bit_and x y) z ≡ bit_and x (bit_and y z)
bit_and_assoc x y z = assoc_up_to x x y z (omega arith)
