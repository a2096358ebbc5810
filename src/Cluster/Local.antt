-- ===== src/Cluster/Local.antt =====
-- What a hart takes from memory before it leaves: nothing but the image of its core. The routines of
-- src/restore.S and `checkpoint_ext_check` give the same on any two memories that agree there.
use lib_checkpoint.Common.{
  ℕ, zero, suc, ◌+◌, ◌*◌, ◌^◌, ◌≤◌, ◌<◌, ◌≡◌, ◌≢◌, ◌⊎◌, ◌∙◌, refl, arith, List, [], ◌∷◌, String,
  update, All,
}
use lib_checkpoint.Memory.{Memory, load32, load64}
use lib_checkpoint.Encoding.Csrs.{CsrTable}
use lib_checkpoint.Layout.{Memlayout}
use lib_checkpoint.Extensions.{no_flags, checkpoint_ext_check}
use lib_checkpoint.Hart.{CsrFile}
use lib_checkpoint.Jal.Slots.{slot_count}
use lib_checkpoint.Restore.{mtimecmp_source}
use lib_checkpoint.Restore.Images.{dram}
use lib_checkpoint.Registers.{
  csr_slot, csr_loads, float_loads, int_loads, vector_bytes, vector_loads,
}

-- The `n` bytes from `a` on are in ordinary memory, and none is in the table of slots.
abbrev pub IsImage : ℕ → ℕ → ℕ → Type 0
IsImage core0 a n = (dram ≤ a) × ((a + n ≤ core0) ⊎ (core0 + slot_count * 16 ≤ a))

-- The two memories differ at most in the slots and in devices.
abbrev pub Agrees : ℕ → Memory → Memory → Type 0
Agrees core0 m m' = (j : ℕ) → IsImage core0 j 1 → m j ≡ m' j

-- All that core `i` reads is apart from the slots and devices.
pub record IsReadable (core0 vlenb i : ℕ) (l : Memlayout) : Type 0 where
  pub count : IsImage core0 l.csr_reserve 8
  pub mode : IsImage core0 l.mode_cpt_addr 8
  pub target : IsImage core0 l.pc_cpt_addr 8
  pub timer : IsImage core0 (mtimecmp_source i l) 8
  pub csrs : IsImage core0 l.csr_reg_cpt_addr (4096 * 8)
  pub floats : IsImage core0 l.float_reg_cpt_addr (32 * 8)
  pub vectors : IsImage core0 l.vector_reg_cpt_addr (31 * 16 + vlenb)
  pub ints : IsImage core0 l.int_reg_cpt_addr (32 * 8)

module _ (core0 : ℕ) (m m' : Memory) (agrees : Agrees core0 m m') where
  load32-local : (a : ℕ) → IsImage core0 a 4 → load32 m a ≡ load32 m' a
  unfolding load32
  load32-local a ok = omega (
    arith,
    agrees a (omega arith),
    agrees (a + 1) (omega arith),
    agrees (a + 2) (omega arith),
    agrees (a + 3) (omega arith),
  )

  pub load64-local : (a : ℕ) → IsImage core0 a 8 → load64 m a ≡ load64 m' a
  unfolding load64
  load64-local a ok =
      omega (arith, load32-local a (omega arith), load32-local (a + 4) (omega arith))

  pub csr_loads-local :
      (F : CsrFile) (t : CsrTable) (base : ℕ) (s : F.State)
      → IsImage core0 base (4096 * 8)
      → All (λ (e : String × ℕ). e.1 < 4096) t
      → csr_loads F t base m s ≡ csr_loads F t base m' s
  unfolding csr_loads
  csr_loads-local F [] base s ok small = refl
  csr_loads-local F ((name, a) ∷ t) base s ok small =
      rw (load64-local (csr_slot base a) (omega (arith, small.0)))
        (csr_loads-local F t base (F.write s a (load64 m' (csr_slot base a))) ok small.1)

  pub float_loads-local :
      (left n base : ℕ) (fpr : ℕ → ℕ)
      → n + left ≤ 32
      → IsImage core0 base (32 * 8)
      → float_loads left n base m fpr ≡ float_loads left n base m' fpr
  unfolding float_loads
  float_loads-local zero n base fpr h ok = refl
  float_loads-local (suc left) n base fpr h ok = rw (load64-local (base + n * 8) (omega arith)) (
      float_loads-local left (n + 1) base (update fpr n (load64 m' (base + n * 8))) (omega arith)
        ok)

  vector_bytes-local : (n a : ℕ) → IsImage core0 a n → vector_bytes n a m ≡ vector_bytes n a m'
  unfolding vector_bytes
  vector_bytes-local zero a ok = refl
  vector_bytes-local (suc n) a ok =
      rw (agrees a (omega arith), vector_bytes-local n (a + 1) (omega arith)) refl

  pub vector_loads-local :
      (vlenb left n a1 : ℕ) (vreg : ℕ → List ℕ)
      → IsImage core0 a1 (left * 16 + vlenb)
      → vector_loads vlenb (suc left) n a1 m vreg ≡ vector_loads vlenb (suc left) n a1 m' vreg
  unfolding vector_loads
  vector_loads-local vlenb zero n a1 vreg ok = rw (vector_bytes-local vlenb a1 (omega arith)) refl
  vector_loads-local vlenb (suc left) n a1 vreg ok =
      rw (vector_bytes-local vlenb a1 (omega arith)) (
        vector_loads-local vlenb left (n + 1) (a1 + 16) (update vreg n (vector_bytes vlenb a1 m'))
          (omega arith))

  -- The stack pointer, from which the integer registers are loaded, is none of those.
  pub int_loads-local :
      (is : List ℕ) (gpr : ℕ → ℕ)
      → IsImage core0 (gpr 2) (32 * 8)
      → All (λ (i : ℕ). (i < 32) × (i ≢ 2)) is
      → (int_loads is m gpr ≡ int_loads is m' gpr) × (int_loads is m' gpr 2 ≡ gpr 2)
  unfolding int_loads
  int_loads-local [] gpr ok small = (refl, refl)
  int_loads-local (i ∷ is) gpr ok small =
      let next = update gpr i (load64 m' (gpr 2 + i * 8)) in
      let kept : next 2 ≡ gpr 2 = ground (arith, small.0) in
      let (same, sp) = int_loads-local is next (rw kept ok) small.1 in
      (rw (load64-local (gpr 2 + i * 8) (omega (arith, small.0))) same, sp ∙ kept)

  pub checkpoint_ext_check-local :
      (host_misa vlenb i : ℕ) (l : Memlayout)
      → IsReadable core0 vlenb i l
      → checkpoint_ext_check host_misa m l.csr_reg_cpt_addr l.mode_cpt_addr no_flags
        ≡ checkpoint_ext_check host_misa m' l.csr_reg_cpt_addr l.mode_cpt_addr no_flags
  unfolding checkpoint_ext_check
  checkpoint_ext_check-local host_misa vlenb i l ok =
      rw
        (
          load64-local (l.csr_reg_cpt_addr + 0x300 * 2 ^ 3) (omega (arith, ok.csrs)),
          load64-local (l.csr_reg_cpt_addr + 0x301 * 2 ^ 3) (omega (arith, ok.csrs)),
          load64-local l.mode_cpt_addr ok.mode,
        )
        refl
