-- ===== src/Registers.antt =====
-- src/restore.S: the routines that move one kind of register from memory into the hart. Each
-- returns the status that the C code tests, in `a0`, beside the new state.
pub mod Files
pub mod Csrs
pub mod Integers
pub mod Range
pub mod Tests
use lib_checkpoint.Common.{
  update, ℕ, zero, suc, ◌+◌, ◌*◌, ◌%◌, ◌^◌, bit_and, Bool, ◌&&◌, List, [], ◌∷◌, ◌==◌, if◌then◌else◌,
}
use lib_checkpoint.Memory.{Memory, load64, store64}
use lib_checkpoint.Encoding.{
  csr_mstatus, csr_misa, csr_fcsr, mstatus_fs, mstatus_vs_dirty, mstatus_fs_dirty, misa_h, misa_v,
}
use lib_checkpoint.Encoding.Csrs.{CsrTable}
use lib_checkpoint.CsrLists.{csrs, hcsrs, vl_id, vtype_id, clint_mmio, clint_mtime}
use lib_checkpoint.Hart.{CsrFile, Machine, set_bits}

-- the double word of CSR `a` in an image at `base`: `li t2, a; slli t2, t2, 3; add t2, t0, t2`
abbrev pub csr_slot : ℕ → ℕ → ℕ
csr_slot base a = base + a * 2 ^ 3

-- `fld f0, (0*8)(t0)` up to `fld f31, (31*8)(t0)`: `left` loads from register `n` on
unfoldable pub float_loads : ℕ → ℕ → ℕ → Memory → (ℕ → ℕ) → ℕ → ℕ
float_loads zero n base m fpr = fpr
float_loads (suc left) n base m fpr =
    float_loads left (n + 1) base m (update fpr n (load64 m (base + n * 8)))

-- the bytes that `vl1re64.v` loads: as many as a vector register has
unfoldable pub vector_bytes : ℕ → ℕ → Memory → List ℕ
vector_bytes zero a m = []
vector_bytes (suc left) a m = m a ∷ vector_bytes left (a + 1) m

-- `vl1re64.v v0, (a1); addi a1, a1, 16` and so on, `left` loads from register `n` on
unfoldable pub vector_loads : ℕ → ℕ → ℕ → ℕ → Memory → (ℕ → List ℕ) → ℕ → List ℕ
vector_loads vlenb zero n a1 m vreg = vreg
vector_loads vlenb (suc left) n a1 m vreg =
    vector_loads vlenb left (n + 1) (a1 + 16) m (update vreg n (vector_bytes vlenb a1 m))

-- `ld xi, (i*8)(sp)` for each register of the list; `sp` is register 2
unfoldable pub int_loads : List ℕ → Memory → (ℕ → ℕ) → ℕ → ℕ
int_loads [] m gpr = gpr
int_loads (i ∷ is) m gpr = int_loads is m (update gpr i (load64 m (gpr 2 + i * 8)))

abbrev pub mret_registers : List ℕ
mret_registers =
    1 ∷ 3 ∷ 4 ∷ 5 ∷ 6 ∷ 7 ∷ 8 ∷ 9 ∷ 10 ∷ 11 ∷ 12 ∷ 13 ∷ 14 ∷ 15 ∷ 16 ∷ 17 ∷ 18 ∷ 19 ∷ 20 ∷ 21 ∷ 22
    ∷ 23 ∷ 24 ∷ 25 ∷ 26 ∷ 27 ∷ 28 ∷ 29 ∷ 30 ∷ 31 ∷ []

abbrev pub jump_registers : List ℕ
jump_registers =
    1 ∷ 3 ∷ 4 ∷ 7 ∷ 8 ∷ 9 ∷ 10 ∷ 11 ∷ 12 ∷ 13 ∷ 14 ∷ 15 ∷ 16 ∷ 17 ∷ 18 ∷ 19 ∷ 20 ∷ 21 ∷ 22 ∷ 23 ∷ 24
    ∷ 25 ∷ 26 ∷ 27 ∷ 28 ∷ 29 ∷ 30 ∷ 31 ∷ []

-- `ld sp, (2*8)(sp)`
unfoldable pub load_sp : Memory → (ℕ → ℕ) → ℕ → ℕ
load_sp m gpr = update gpr 2 (load64 m (gpr 2 + 2 * 8))

-- the loads at the label `coreN`
abbrev pub slot_registers : List ℕ
slot_registers = 5 ∷ 6 ∷ []

-- `csrr t0, mhartid; slli t0, t0, 4; la t1, core0; add t0, t0, t1`
unfoldable pub slot_address : ℕ → ℕ → ℕ
slot_address core0 mhartid = (mhartid * 2 ^ 4 + core0) % 2 ^ 64

module _ (F : CsrFile) where
  -- `CSRS_RESTORE` for each entry of a list, in its order
  unfoldable pub csr_loads : CsrTable → ℕ → Memory → F.State → F.State
  csr_loads [] base m s = s
  csr_loads ((name, a) ∷ t) base m s = csr_loads t base m (F.write s a (load64 m (csr_slot base a)))

  unfoldable pub rvh_support_check : F.State → ℕ
  rvh_support_check s = bit_and (F.read s csr_misa) misa_h

  unfoldable pub rvv_support_check : F.State → ℕ
  rvv_support_check s = bit_and (F.read s csr_misa) misa_v

module _ {F : CsrFile} where
  unfoldable pub restore_csr_vector : ℕ → Machine F → Machine F × ℕ
  restore_csr_vector a0 s =
      let fcsr = load64 s.mem (csr_slot a0 csr_fcsr) in
      let enabled = set_bits F s.csr csr_mstatus mstatus_fs in
      (record s { csr = csr_loads F csrs a0 s.mem (F.write enabled csr_fcsr fcsr) }, 1)

  unfoldable pub rvh_csr_restore : ℕ → Machine F → Machine F × ℕ
  rvh_csr_restore a0 s = (record s { csr = csr_loads F hcsrs a0 s.mem s.csr }, 1)

  -- `vlenb` is the number of bytes of a vector register.
  unfoldable pub rvv_restore : ℕ → ℕ → ℕ → Machine F → Machine F × ℕ
  rvv_restore vlenb a0 a1 s =
      let mstatus = F.read s.csr csr_mstatus in
      let enabled = set_bits F s.csr csr_mstatus mstatus_vs_dirty in
      let vtype = load64 s.mem (csr_slot a0 vtype_id) in
      let vl = load64 s.mem (csr_slot a0 vl_id) in
      (
        record s {
          csr = F.write (F.vsetvl enabled vl vtype) csr_mstatus mstatus;
          vreg = vector_loads vlenb 32 0 a1 s.mem s.vreg;
        },
        1,
      )

  unfoldable pub restore_float_vector : ℕ → Machine F → Machine F × ℕ
  restore_float_vector a0 s =
      let mstatus = F.read s.csr csr_mstatus in
      let enabled = set_bits F s.csr csr_mstatus mstatus_fs_dirty in
      (
        record s {
          csr = F.write enabled csr_mstatus mstatus;
          fpr = float_loads 32 0 a0 s.mem s.fpr;
        },
        1,
      )

  unfoldable pub restore_mtime : ℕ → Machine F → Machine F × ℕ
  restore_mtime a0 s =
      (record s { mem = store64 s.mem (clint_mmio + clint_mtime) (load64 s.mem a0) }, 1)

  unfoldable pub restore_mtime_cmp : ℕ → ℕ → Machine F → Machine F × ℕ
  restore_mtime_cmp a0 a1 s = (record s { mem = store64 s.mem a0 (load64 s.mem a1) }, 1)

  -- `mv sp, a0`, the loads, that of `sp` last, and `mret`
  unfoldable pub restore_int_vector_mret : ℕ → Machine F → Machine F
  restore_int_vector_mret a0 s = record s {
    gpr = load_sp s.mem (int_loads mret_registers s.mem (update s.gpr 2 a0));
  }

  -- The first loads, the way to the slot of this hart over registers 5 and 6, and the loads there.
  -- The number is the address of the word that is run next, the last of the slot.
  unfoldable pub restore_int_vector_jump : ℕ → ℕ → ℕ → Machine F → Machine F × ℕ
  restore_int_vector_jump core0 mhartid a0 s =
      let loaded = int_loads jump_registers s.mem (update s.gpr 2 a0) in
      let slot = slot_address core0 mhartid in
      let there = update (update loaded 6 core0) 5 slot in
      (record s { gpr = load_sp s.mem (int_loads slot_registers s.mem there) }, slot + 12)
