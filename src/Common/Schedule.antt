-- ===== src/Common/Schedule.antt =====
-- Harts that take turns: if some hart can always bring the whole nearer to its end, a schedule gets it
-- there.
use lib_checkpoint.Common.Lists.{length, All}
use Prim.Native.Nat.{ℕ, zero, suc, ◌≤◌, ◌<◌}
use mathlib.Core.Path.{◌≡◌}
use mathlib.Core.List.{List, [], ◌∷◌}
use native.Mathlib.Omega.{arith}
use native.Mathlib.Decide.{dec_lt}

-- The order in which the first `n` harts go on.
abbrev pub IsSchedule : ℕ → List ℕ → Type 0
IsSchedule n = All (λ i. i < n)

module _ {ℓ κ} {S : Type ℓ} (n : ℕ) (step : ℕ → S → S) (P : S → Type κ) (measure : S → ℕ)
    (go : (s : S)
      → P s
      → 0 < measure s
      → (i : ℕ) × (i < n) × P (step i s) × (measure (step i s) < measure s))
    (run : List ℕ → S → S) (run-nil : (s : S) → run [] s ≡ s)
    (run-cons : (i : ℕ) (is : List ℕ) (s : S) → run (i ∷ is) s ≡ run is (step i s)) where
  -- `fuel` bounds the steps that are left.
  pub finish :
      (fuel : ℕ) (s : S)
      → P s
      → measure s ≤ fuel
      → (more : List ℕ) × IsSchedule n more
        × (length more ≤ fuel)
        × P (run more s)
        × (measure (run more s) ≤ 0)
  finish zero s p enough = ([], tt, omega arith, rw run-nil p, rw run-nil enough)
  finish (suc fuel) s p enough = elim (dec_lt 0 (measure s)) [
    | no done ↦ ([], tt, omega arith, rw run-nil p, rw run-nil (omega arith))
    | yes some ↦
        let (i, lt, kept, less) = go s p some in
        let (more, ok, short, q, done) = finish fuel (step i s) kept (omega arith) in
        (i ∷ more, (lt, ok), omega arith, rw run-cons q, rw run-cons done)
  ]
