-- ===== src/Common/Sums.antt =====
-- Weights of the harts, summed over the first `n`.
use lib_checkpoint.Common.{
  update, ℕ, zero, suc, ◌+◌, ◌*◌, ◌≤◌, ◌<◌, ◌≡◌, refl, arith, dec_lt, ℕ_discrete,
}

module _ {ℓ} {A : Type ℓ} (w : A → ℕ) where
  unfoldable pub weigh : ℕ → (ℕ → A) → ℕ
  weigh zero f = 0
  weigh (suc n) f = w (f n) + weigh n f

  -- A change at an index that is not summed is not seen.
  weigh-update_out :
      (n : ℕ) (f : ℕ → A) (i : ℕ) (a : A) → n ≤ i → weigh n (update f i a) ≡ weigh n f
  unfolding weigh
  weigh-update_out zero f i a out = refl
  weigh-update_out (suc n) f i a out = ground (arith, weigh-update_out n f i a)

  -- A change at an index that is summed moves the sum by the difference of the weights.
  pub weigh-update :
      (n : ℕ) (f : ℕ → A) (i : ℕ) (a : A)
      → i < n
      → w (f i) + weigh n (update f i a) ≡ w a + weigh n f
  unfolding weigh
  weigh-update zero f i a lt = absurd (omega arith)
  weigh-update (suc n) f i a lt = elim (ℕ_discrete i n) [
    | yes last ↦ rw last (ground (arith, weigh-update_out n f n a))
    | no ne ↦ ground (arith, weigh-update n f i a)
  ]

  pub weight-le-weigh : (n : ℕ) (f : ℕ → A) (i : ℕ) → i < n → w (f i) ≤ weigh n f
  unfolding weigh
  weight-le-weigh zero f i lt = absurd (omega arith)
  weight-le-weigh (suc n) f i lt = elim (ℕ_discrete i n) [
    | yes last ↦ rw last (omega arith)
    | no ne ↦ omega (arith, weight-le-weigh n f i)
  ]

  pub weigh-le : ((a : A) → w a ≤ 1) → (n : ℕ) (f : ℕ → A) → weigh n f ≤ n
  unfolding weigh
  weigh-le small zero f = omega arith
  weigh-le small (suc n) f = omega (arith, small (f n), weigh-le small n f)

  -- If every weight is at most one and the sum is full, every weight is one.
  pub weigh-full :
      ((a : A) → w a ≤ 1) → (n : ℕ) (f : ℕ → A) (i : ℕ) → weigh n f ≡ n → i < n → w (f i) ≡ 1
  unfolding weigh
  weigh-full small zero f i full lt = absurd (omega arith)
  weigh-full small (suc n) f i full lt = elim (ℕ_discrete i n) [
    | yes last ↦ rw last (omega (arith, small (f n), weigh-le small n f))
    | no ne ↦ weigh-full small n f i (omega (arith, small (f n), weigh-le small n f)) (omega arith)
  ]

  -- A positive sum has a positive weight.
  pub weigh-find : (n : ℕ) (f : ℕ → A) → 0 < weigh n f → (i : ℕ) × (i < n) × (0 < w (f i))
  unfolding weigh
  weigh-find zero f pos = absurd (omega arith)
  weigh-find (suc n) f pos = elim (dec_lt 0 (w (f n))) [
    | yes here ↦ (n, omega arith, here)
    | no none ↦ let (i, lt, there) = weigh-find n f (omega arith) in (i, omega arith, there)
  ]

  -- The same weight `k` for each of the harts.
  pub weigh-const : (k n : ℕ) (f : ℕ → A) → ((i : ℕ) → i < n → w (f i) ≡ k) → weigh n f ≡ n * k
  unfolding weigh
  weigh-const k zero f h = omega arith
  weigh-const k (suc n) f h =
      omega (arith, h n (omega arith), weigh-const k n f (λ i lt. h i (omega arith)))

  -- Two harts weigh no more than all.
  pub weigh-two : (n : ℕ) (f : ℕ → A) (i j : ℕ) → i < j → j < n → w (f i) + w (f j) ≤ weigh n f
  unfolding weigh
  weigh-two zero f i j lt lt' = absurd (omega arith)
  weigh-two (suc n) f i j lt lt' = elim (ℕ_discrete j n) [
    | yes last ↦ rw last (omega (arith, weight-le-weigh n f i (omega arith)))
    | no ne ↦ omega (arith, weigh-two n f i j lt (omega arith))
  ]

module _ {ℓ} {A : Type ℓ} (u v w : A → ℕ) where
  -- A weight that is the sum of two sums to their sums.
  pub weigh-add :
      ((a : A) → w a ≡ u a + v a) → (n : ℕ) (f : ℕ → A) → weigh w n f ≡ weigh u n f + weigh v n f
  unfolding weigh
  weigh-add split zero f = refl
  weigh-add split (suc n) f = omega (arith, split (f n), weigh-add split n f)
