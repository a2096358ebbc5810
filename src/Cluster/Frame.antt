-- ===== src/Cluster/Frame.antt =====
-- What a step of one hart does to memory: it changes the slot of its core and the devices.
use lib_checkpoint.Common.{ℕ, ◌+◌, ◌≤◌, ◌<◌, ◌≡◌, ◌⊎◌, inr, refl, ap, arith}
use lib_checkpoint.Memory.{Memory, load64, store32}
use lib_checkpoint.Memory.Laws.{store32_outside, store64_outside}
use lib_checkpoint.CsrLists.{clint_mmio, clint_mtime}
use lib_checkpoint.Jal.{patch_address, jal_word}
use lib_checkpoint.Jal.Slots.{slot_count}
use lib_checkpoint.Hart.{CsrFile}
use lib_checkpoint.Registers.{
  restore_csr_vector, rvh_csr_restore, rvv_restore, restore_float_vector, restore_mtime,
  restore_mtime_cmp, restore_int_vector_mret, restore_int_vector_jump,
}
use lib_checkpoint.Restore.{
  patch_slot, check_range, restore_check, restore_clock, leave, mtimecmp_device, mtimecmp_source,
}
use lib_checkpoint.Restore.Images.{dram}
use lib_checkpoint.Barrier.{Shared, Pc, restoring, passed}
use lib_checkpoint.Cluster.{
  Setting, platform, Task, Stage, checking, patching, hyper, vectors, floats, csr_list, timer,
  meeting, gone, block, beside, meet, act,
}
use lib_checkpoint.Cluster.Local.{Agrees, IsReadable, load64-local}
use lib_checkpoint.Cluster.Blocks.{Same}

-- in ordinary memory, beside the patched word of core `i`
abbrev pub IsBeside : ℕ → ℕ → ℕ → Type 0
IsBeside core0 i j = (dram ≤ j) × ((j < patch_address core0 i) ⊎ (patch_address core0 i + 4 ≤ j))

-- in the patched word of core `i`
abbrev pub IsSlot : ℕ → ℕ → ℕ → Type 0
IsSlot core0 i j = (dram ≤ j) × (patch_address core0 i ≤ j) × (j < patch_address core0 i + 4)

module _ {F : CsrFile} (y : Setting) (i : ℕ) (has_slot : i < slot_count) where
  pub block-frame :
      (st : Stage) (t : Task F) (j : ℕ)
      → IsBeside y.core0 i j
      → (block y i st t).machine.mem j ≡ t.machine.mem j
  unfolding block rvh_csr_restore rvv_restore restore_float_vector restore_csr_vector patch_slot
      check_range restore_check restore_mtime_cmp
  block-frame checking t j off = refl
  block-frame patching t j off = ground (
    arith,
    store32_outside t.machine.mem (patch_address y.core0 i)
        (jal_word (patch_address y.core0 i) (load64 t.machine.mem (y.layout i).pc_cpt_addr)) j,
  )
  block-frame hyper t j off = ground arith
  block-frame vectors t j off = ground arith
  block-frame floats t j off = ground arith
  block-frame csr_list t j off = refl
  block-frame timer t j off =
      store64_outside t.machine.mem (mtimecmp_device i)
        (load64 t.machine.mem (mtimecmp_source i (y.layout i))) j (omega arith)
  block-frame (meeting pc) t j off = refl
  block-frame (gone e) t j off = refl

  beside-mem :
      (m : Shared) (pc : Pc) (t : Task F) (j : ℕ)
      → dram ≤ j
      → (beside y i m pc t).machine.mem j ≡ t.machine.mem j
  unfolding beside restore_clock restore_mtime restore_check
  beside-mem m restoring t j off =
      store64_outside t.machine.mem (clint_mmio + clint_mtime)
        (load64 t.machine.mem (y.layout i).mtime_cpt_addr) j (inr (omega arith))
  beside-mem m pc t j off = refl

  pub leave-mem :
      (t : Task F) → (leave (platform y i) (y.layout i) t.flags t.machine).0.mem ≡ t.machine.mem
  unfolding leave restore_int_vector_mret restore_int_vector_jump
  leave-mem t = ground arith

  pub meet-mem :
      (m : Shared) (pc : Pc) (t : Task F) (j : ℕ)
      → dram ≤ j
      → (meet y i m t pc).1.machine.mem j ≡ t.machine.mem j
  unfolding meet
  meet-mem m passed t j off = ap (λ (m : Memory). m j) (leave-mem t)
  meet-mem m pc t j off = beside-mem m pc t j off

  -- No step of a hart changes ordinary memory beside its slot.
  pub act-frame :
      (m : Shared) (st : Stage) (t : Task F) (j : ℕ)
      → IsBeside y.core0 i j
      → (act y i m t st).1.machine.mem j ≡ t.machine.mem j
  unfolding act
  act-frame m (meeting pc) t j off = meet-mem m pc t j off.0
  act-frame m st t j off = block-frame st t j off

  -- Two harts that see the same of the image leave the same in the slot.
  pub block-slot :
      (st : Stage) (t u : Task F) (j : ℕ)
      → Same t u
      → Agrees y.core0 t.machine.mem u.machine.mem
      → IsReadable y.core0 y.vlenb i (y.layout i)
      → dram ≤ j
      → t.machine.mem j ≡ u.machine.mem j
      → (block y i st t).machine.mem j ≡ (block y i st u).machine.mem j
  unfolding block rvh_csr_restore rvv_restore restore_float_vector restore_csr_vector patch_slot
      check_range restore_check restore_mtime_cmp store32
  block-slot checking t u j same agrees ok off here = here
  block-slot patching t u j same agrees ok off here = ground (
    arith,
    same.flags,
    load64-local y.core0 t.machine.mem u.machine.mem agrees (y.layout i).pc_cpt_addr ok.target,
  )
  block-slot hyper t u j same agrees ok off here = ground arith
  block-slot vectors t u j same agrees ok off here = ground arith
  block-slot floats t u j same agrees ok off here = ground arith
  block-slot csr_list t u j same agrees ok off here = here
  block-slot timer t u j same agrees ok off here = ground (
    arith,
    store64_outside t.machine.mem (mtimecmp_device i)
        (load64 t.machine.mem (mtimecmp_source i (y.layout i))) j,
    store64_outside u.machine.mem (mtimecmp_device i)
        (load64 u.machine.mem (mtimecmp_source i (y.layout i))) j,
  )
  block-slot (meeting pc) t u j same agrees ok off here = here
  block-slot (gone e) t u j same agrees ok off here = here
