-- ===== src/Cluster/Leave.antt =====
-- The way out depends on the image of the core alone.
use lib_checkpoint.Common.{ℕ, ◌+◌, ◌*◌, ◌≡◌, refl, arith, update}
use lib_checkpoint.Memory.{Memory}
use lib_checkpoint.Hart.{CsrFile, Machine}
use lib_checkpoint.Registers.{
  mret_registers, jump_registers, slot_registers, slot_address, load_sp, int_loads,
  restore_int_vector_mret, restore_int_vector_jump,
}
use lib_checkpoint.Restore.{Exit, leave}
use lib_checkpoint.Cluster.{Setting, Task, platform}
use lib_checkpoint.Cluster.Local.{Agrees, IsImage, IsReadable, load64-local, int_loads-local}
use lib_checkpoint.Cluster.Blocks.{Same}

module _ (core0 : ℕ) (m m' : Memory) (agrees : Agrees core0 m m') (a0 : ℕ)
    (ok : IsImage core0 a0 (32 * 8)) where
  -- the loads of `restore_int_vector_mret`
  mret_loads-local :
      (gpr : ℕ → ℕ)
      → load_sp m (int_loads mret_registers m (update gpr 2 a0))
        ≡ load_sp m' (int_loads mret_registers m' (update gpr 2 a0))
  unfolding load_sp
  mret_loads-local gpr =
      let (same, sp) =
        int_loads-local core0 m m' agrees mret_registers (update gpr 2 a0) ok (omega arith) in
      rw (same, sp, load64-local core0 m m' agrees (a0 + 2 * 8) (omega arith)) refl

  -- The loads of `restore_int_vector_jump`, with those of the slot after registers 5 and 6 are used.
  jump_loads-local :
      (gpr : ℕ → ℕ) (start slot : ℕ)
      → load_sp m (
          int_loads slot_registers m
            (update (update (int_loads jump_registers m (update gpr 2 a0)) 6 start) 5 slot))
        ≡ load_sp m' (
            int_loads slot_registers m'
              (update (update (int_loads jump_registers m' (update gpr 2 a0)) 6 start) 5 slot))
  unfolding load_sp
  jump_loads-local gpr start slot =
      let first = update gpr 2 a0 in
      let (same, sp) = int_loads-local core0 m m' agrees jump_registers first ok (omega arith) in
      let there = update (update (int_loads jump_registers m' first) 6 start) 5 slot in
      let (same', sp') =
        int_loads-local core0 m m' agrees slot_registers there (rw sp ok) (omega arith) in
      rw (same, same', sp', sp, load64-local core0 m m' agrees (a0 + 2 * 8) (omega arith)) refl

module _ {F : CsrFile} (y : Setting) (i : ℕ) (t u : Task F) (same : Same t u)
    (agrees : Agrees y.core0 t.machine.mem u.machine.mem)
    (ok : IsReadable y.core0 y.vlenb i (y.layout i)) where
  abbrev pub goes : Task F → Machine F × Exit
  goes v = leave (platform y i) (y.layout i) v.flags v.machine

  pub leave-exit : (goes t).1 ≡ (goes u).1
  unfolding leave restore_int_vector_jump
  leave-exit = ground (arith, same)

  pub leave-Same : Same (record t { machine = (goes t).0 }) (record u { machine = (goes u).0 })
  unfolding leave restore_int_vector_jump restore_int_vector_mret
  leave-Same = ground (
    arith,
    same,
    mret_loads-local y.core0 t.machine.mem u.machine.mem agrees (y.layout i).int_reg_cpt_addr
        ok.ints u.machine.gpr,
    jump_loads-local y.core0 t.machine.mem u.machine.mem agrees (y.layout i).int_reg_cpt_addr
        ok.ints u.machine.gpr y.core0 (slot_address y.core0 i),
  )
