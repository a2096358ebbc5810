-- ===== src/Restore/Leave.antt =====
-- The last branch of `single_core_rvv_rvh_rvgc_restore`: the way out, and the registers of the hart.
use lib_checkpoint.Common.{ℕ, ◌+◌, ◌*◌, ◌^◌, ◌<◌, ◌≡◌, ◌≢◌, ◌∙◌, refl, ap, ==-of-ne}
use lib_checkpoint.Memory.{Memory, load64}
use lib_checkpoint.Layout.{Memlayout}
use lib_checkpoint.Jal.{patch_address}
use lib_checkpoint.Extensions.{Flags}
use lib_checkpoint.Hart.{CsrFile, Machine}
use lib_checkpoint.Registers.{restore_int_vector_mret, restore_int_vector_jump}
use lib_checkpoint.Registers.Integers.{
  IsInt, restore_int_vector_mret_lem, restore_int_vector_jump_lem,
}
use lib_checkpoint.Restore.{Platform, by_mret, by_slot, leave}

module _ {F : CsrFile} (t : Machine F) where
  mret-mem : (a0 : ℕ) → t.mem ≡ (restore_int_vector_mret a0 t).mem
  unfolding restore_int_vector_mret
  mret-mem a0 = refl

  jump-mem : (core0 mhartid a0 : ℕ) → t.mem ≡ (restore_int_vector_jump core0 mhartid a0 t).0.mem
  unfolding restore_int_vector_jump
  jump-mem core0 mhartid a0 = refl

module _ {F : CsrFile} (p : Platform) (l : Memlayout) (f : Flags) (t : Machine F) where
  -- After an M-mode checkpoint the next word is the last of the hart's own slot.
  pub leave_jumps :
      (i : ℕ)
      → f.should_jump_to_mepc ≢ 0
      → p.core0 + p.mhartid * 16 + 12 < 2 ^ 64
      → IsInt i
      → ((leave p l f t).1 ≡ by_slot (patch_address p.core0 p.mhartid))
        × ((leave p l f t).0.gpr i ≡ load64 (leave p l f t).0.mem (l.int_reg_cpt_addr + i * 8))
  unfolding leave
  leave_jumps i jumps fits range =
      let (same, word) =
        restore_int_vector_jump_lem t p.core0 p.mhartid l.int_reg_cpt_addr i range fits in
      rw (==-of-ne f.should_jump_to_mepc 0 jumps) (
        ap by_slot word,
        same
            ∙ restore_int_vector_mret_lem t l.int_reg_cpt_addr i range
            ∙ ap (λ (m : Memory). load64 m (l.int_reg_cpt_addr + i * 8))
                (jump-mem t p.core0 p.mhartid l.int_reg_cpt_addr),
      )

  -- After any other, `mret` is next.
  pub leave_returns :
      (i : ℕ)
      → f.should_jump_to_mepc ≡ 0
      → IsInt i
      → ((leave p l f t).1 ≡ by_mret)
        × ((leave p l f t).0.gpr i ≡ load64 (leave p l f t).0.mem (l.int_reg_cpt_addr + i * 8))
  unfolding leave
  leave_returns i stays range = rw stays (
    refl,
    restore_int_vector_mret_lem t l.int_reg_cpt_addr i range
        ∙ ap (λ (m : Memory). load64 m (l.int_reg_cpt_addr + i * 8))
            (mret-mem t l.int_reg_cpt_addr),
  )
