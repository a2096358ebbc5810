-- ===== src/Cluster/Blocks.antt =====
-- The blocks of a hart before the meeting: what they do to its registers depends on the image alone.
use lib_checkpoint.Common.{ℕ, ◌<◌, ◌≡◌, arith}
use lib_checkpoint.Memory.{Memory, load64}
use lib_checkpoint.Layout.{Memlayout}
use lib_checkpoint.Hart.{CsrFile, set_bits}
use lib_checkpoint.Encoding.{csr_misa, csr_fcsr, csr_mstatus, mstatus_fs}
use lib_checkpoint.CsrLists.{csrs, hcsrs, vl_id, vtype_id}
use lib_checkpoint.Registers.{
  csr_slot, restore_csr_vector, rvh_csr_restore, rvv_restore, restore_float_vector,
  restore_mtime_cmp,
}
use lib_checkpoint.Restore.{all_cpu_num, patch_slot, check_range, restore_check}
use lib_checkpoint.Cluster.{
  Setting, Task, Stage, checking, patching, hyper, vectors, floats, csr_list, timer, meeting, gone,
  block,
}
use lib_checkpoint.Cluster.Local.{
  Agrees, IsReadable, load64-local, csr_loads-local, float_loads-local, vector_loads-local,
  checkpoint_ext_check-local,
}

-- The same registers and local variables; memory and what was printed may differ.
pub record Same {F : CsrFile} (t u : Task F) : Type 0 where
  pub flags : t.flags ≡ u.flags
  pub all : t.all ≡ u.all
  pub csr : t.machine.csr ≡ u.machine.csr
  pub gpr : t.machine.gpr ≡ u.machine.gpr
  pub fpr : t.machine.fpr ≡ u.machine.fpr
  pub vreg : t.machine.vreg ≡ u.machine.vreg

module _ {F : CsrFile} (y : Setting) (i : ℕ) (t u : Task F) (same : Same t u)
    (agrees : Agrees y.core0 t.machine.mem u.machine.mem)
    (ok : IsReadable y.core0 y.vlenb i (y.layout i)) where
  abbrev l : Memlayout
  l = y.layout i

  abbrev m : Memory
  m = t.machine.mem

  abbrev m' : Memory
  m' = u.machine.mem

  same_csr_slot :
      (a : ℕ)
      → a < 4096
      → load64 m (csr_slot l.csr_reg_cpt_addr a) ≡ load64 m' (csr_slot l.csr_reg_cpt_addr a)
  same_csr_slot a lt =
      load64-local y.core0 m m' agrees (csr_slot l.csr_reg_cpt_addr a) (omega (arith, ok.csrs))

  checking-Same : Same (block y i checking t) (block y i checking u)
  unfolding block all_cpu_num
  checking-Same = ground (
    arith,
    same,
    load64-local y.core0 m m' agrees l.csr_reserve ok.count,
    checkpoint_ext_check-local y.core0 m m' agrees (F.read u.machine.csr csr_misa) y.vlenb i l ok,
  )

  patching-Same : Same (block y i patching t) (block y i patching u)
  unfolding block patch_slot check_range
  patching-Same = ground (arith, same)

  hyper-Same : Same (block y i hyper t) (block y i hyper u)
  unfolding block rvh_csr_restore restore_check
  hyper-Same = ground (
    arith,
    same,
    csr_loads-local y.core0 m m' agrees F hcsrs l.csr_reg_cpt_addr u.machine.csr ok.csrs
        (omega arith),
  )

  vectors-Same : Same (block y i vectors t) (block y i vectors u)
  unfolding block rvv_restore restore_check
  vectors-Same = ground (
    arith,
    same,
    same_csr_slot vtype_id (omega arith),
    same_csr_slot vl_id (omega arith),
    vector_loads-local y.core0 m m' agrees y.vlenb 31 0 l.vector_reg_cpt_addr u.machine.vreg
        ok.vectors,
  )

  floats-Same : Same (block y i floats t) (block y i floats u)
  unfolding block restore_float_vector restore_check
  floats-Same = ground (
    arith,
    same,
    float_loads-local y.core0 m m' agrees 32 0 l.float_reg_cpt_addr u.machine.fpr (omega arith)
        ok.floats,
  )

  csr_list-Same : Same (block y i csr_list t) (block y i csr_list u)
  unfolding block restore_csr_vector restore_check
  csr_list-Same = ground (
    arith,
    same,
    same_csr_slot csr_fcsr (omega arith),
    csr_loads-local y.core0 m m' agrees F csrs l.csr_reg_cpt_addr
        (F.write (set_bits F u.machine.csr csr_mstatus mstatus_fs) csr_fcsr
          (load64 m' (csr_slot l.csr_reg_cpt_addr csr_fcsr)))
        ok.csrs (omega arith),
  )

  timer-Same : Same (block y i timer t) (block y i timer u)
  unfolding block restore_mtime_cmp restore_check
  timer-Same = ground (arith, same)

  -- On memories that agree on the image of its core, a hart does the same with its registers.
  pub block-Same : (st : Stage) → Same (block y i st t) (block y i st u)
  unfolding block
  block-Same checking = checking-Same
  block-Same patching = patching-Same
  block-Same hyper = hyper-Same
  block-Same vectors = vectors-Same
  block-Same floats = floats-Same
  block-Same csr_list = csr_list-Same
  block-Same timer = timer-Same
  block-Same (meeting pc) = same
  block-Same (gone e) = same
