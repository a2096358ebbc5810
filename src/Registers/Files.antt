-- ===== src/Registers/Files.antt =====
-- The float and vector registers after their routines, and `mstatus`, which they change and put back.
use lib_checkpoint.Common.{
  update, ℕ, zero, suc, ◌+◌, ◌-◌, ◌*◌, ◌<◌, ◌≡◌, ◌&&◌, refl, arith, leb, ltb, if◌then◌else◌, List,
}
use lib_checkpoint.Encoding.{csr_mstatus}
use lib_checkpoint.Memory.{Memory, load64}
use lib_checkpoint.Hart.{CsrFile, Machine}
use lib_checkpoint.Registers.{
  float_loads, vector_bytes, vector_loads, restore_float_vector, rvv_restore,
}

float_loads_lem :
    (left n base : ℕ) (m : Memory) (fpr : ℕ → ℕ) (j : ℕ)
    → float_loads left n base m fpr j
      ≡ (if leb n j && ltb j (n + left) then load64 m (base + j * 8) else fpr j)
unfolding float_loads
float_loads_lem zero n base m fpr j = ground arith
float_loads_lem (suc left) n base m fpr j =
    ground (arith, float_loads_lem left (n + 1) base m (update fpr n (load64 m (base + n * 8))) j)

vector_loads_lem :
    (vlenb left n a1 : ℕ) (m : Memory) (vreg : ℕ → List ℕ) (j : ℕ)
    → vector_loads vlenb left n a1 m vreg j
      ≡ (if leb n j && ltb j (n + left) then vector_bytes vlenb (a1 + (j - n) * 16) m else vreg j)
unfolding vector_loads
vector_loads_lem vlenb zero n a1 m vreg j = ground arith
vector_loads_lem vlenb (suc left) n a1 m vreg j = ground (
  arith,
  vector_loads_lem vlenb left (n + 1) (a1 + 16) m (update vreg n (vector_bytes vlenb a1 m)) j,
)

pub all_floats :
    (base : ℕ) (m : Memory) (fpr : ℕ → ℕ) (j : ℕ)
    → j < 32
    → float_loads 32 0 base m fpr j ≡ load64 m (base + j * 8)
all_floats base m fpr j h = ground (arith, float_loads_lem 32 0 base m fpr j)

pub all_vectors :
    (vlenb a1 : ℕ) (m : Memory) (vreg : ℕ → List ℕ) (j : ℕ)
    → j < 32
    → vector_loads vlenb 32 0 a1 m vreg j ≡ vector_bytes vlenb (a1 + j * 16) m
all_vectors vlenb a1 m vreg j h = ground (arith, vector_loads_lem vlenb 32 0 a1 m vreg j)

module _ {F : CsrFile} (s : Machine F)
    (mstatus_legal : F.Legal csr_mstatus (F.read s.csr csr_mstatus)) where
  -- `restore_float_vector` loads each of the 32 float registers from its double word, reports
  -- success, and, if the value of `mstatus` is legal, leaves `mstatus` as it was.
  pub restore_float_vector_lem :
      (a0 j : ℕ)
      → j < 32
      → ((restore_float_vector a0 s).0.fpr j ≡ load64 s.mem (a0 + j * 8))
        × ((restore_float_vector a0 s).1 ≡ 1)
        × (F.read (restore_float_vector a0 s).0.csr csr_mstatus ≡ F.read s.csr csr_mstatus)
  unfolding restore_float_vector
  restore_float_vector_lem a0 j h =
      (all_floats a0 s.mem s.fpr j h, refl, F.read-write _ _ _ mstatus_legal)

  -- `rvv_restore` loads register `j` of the 32 vector registers from the bytes at `16 * j` of the
  -- image, as many as a register has, reports success, and, if the value of `mstatus` is legal,
  -- leaves `mstatus` as it was.
  pub rvv_restore_lem :
      (vlenb a0 a1 j : ℕ)
      → j < 32
      → ((rvv_restore vlenb a0 a1 s).0.vreg j ≡ vector_bytes vlenb (a1 + j * 16) s.mem)
        × ((rvv_restore vlenb a0 a1 s).1 ≡ 1)
        × (F.read (rvv_restore vlenb a0 a1 s).0.csr csr_mstatus ≡ F.read s.csr csr_mstatus)
  unfolding rvv_restore
  rvv_restore_lem vlenb a0 a1 j h =
      (all_vectors vlenb a1 s.mem s.vreg j h, refl, F.read-write _ _ _ mstatus_legal)
