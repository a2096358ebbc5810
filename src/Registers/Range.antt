-- ===== src/Registers/Range.antt =====
-- The loads of src/restore.S fill registers with words and bytes.
use lib_checkpoint.Common.{
  ℕ, zero, suc, ◌+◌, ◌*◌, ◌^◌, ◌<◌, ◌==◌, List, [], ◌∷◌, All, update, Bool-cases, inl, inr,
}
use lib_checkpoint.Memory.{Memory, load64}
use lib_checkpoint.Hart.Range.{AreBytes, AreWords, AreVectors, load64-lt, update-AreWords}
use lib_checkpoint.Registers.{float_loads, vector_bytes, vector_loads, int_loads, load_sp}

module _ (m : Memory) (ok : AreBytes m) where
  pub float_loads-AreWords :
      (left n base : ℕ) (fpr : ℕ → ℕ) → AreWords fpr → AreWords (float_loads left n base m fpr)
  unfolding float_loads
  float_loads-AreWords zero n base fpr words = words
  float_loads-AreWords (suc left) n base fpr words =
      float_loads-AreWords left (n + 1) base (update fpr n (load64 m (base + n * 8)))
        (update-AreWords fpr n (load64 m (base + n * 8)) words (load64-lt m (base + n * 8) ok))

  vector_bytes-All : (n a : ℕ) → All (λ (b : ℕ). b < 2 ^ 8) (vector_bytes n a m)
  unfolding vector_bytes
  vector_bytes-All zero a = tt
  vector_bytes-All (suc n) a = (ok a, vector_bytes-All n (a + 1))

  pub vector_loads-AreVectors :
      (vlenb left n a1 : ℕ) (vreg : ℕ → List ℕ)
      → AreVectors vreg
      → AreVectors (vector_loads vlenb left n a1 m vreg)
  unfolding vector_loads
  vector_loads-AreVectors vlenb zero n a1 vreg bytes = bytes
  vector_loads-AreVectors vlenb (suc left) n a1 vreg bytes =
      vector_loads-AreVectors vlenb left (n + 1) (a1 + 16) (update vreg n (vector_bytes vlenb a1 m))
        (λ i. elim (Bool-cases (i == n)) [
          | inl here ↦ rw here (vector_bytes-All vlenb a1)
          | inr there ↦ rw there (bytes i)
        ])

  pub int_loads-AreWords :
      (is : List ℕ) (gpr : ℕ → ℕ) → AreWords gpr → AreWords (int_loads is m gpr)
  unfolding int_loads
  int_loads-AreWords [] gpr words = words
  int_loads-AreWords (i ∷ is) gpr words =
      int_loads-AreWords is (update gpr i (load64 m (gpr 2 + i * 8)))
        (update-AreWords gpr i (load64 m (gpr 2 + i * 8)) words (load64-lt m (gpr 2 + i * 8) ok))

  pub load_sp-AreWords : (gpr : ℕ → ℕ) → AreWords gpr → AreWords (load_sp m gpr)
  unfolding load_sp
  load_sp-AreWords gpr words =
      update-AreWords gpr 2 (load64 m (gpr 2 + 2 * 8)) words (load64-lt m (gpr 2 + 2 * 8) ok)
