-- ===== src/Restore/Range.antt =====
-- The restorer keeps the machine in range: what it loads and stores are bytes and
-- words.
pub mod Steps
use lib_checkpoint.Common.{
  ℕ, ◌^◌, ◌<◌, ◌==◌, arith, [], ◌∷◌, ◌++◌, update, Bool-cases, inl, inr, some,
}
use lib_checkpoint.Console.{mt_print}
use lib_checkpoint.Encoding.{csr_misa}
use lib_checkpoint.Layout.{Memlayout}
use lib_checkpoint.Extensions.{Flags, no_flags, checkpoint_ext_check}
use lib_checkpoint.Hart.{CsrFile, Machine, emit}
use lib_checkpoint.Hart.Range.{IsInRange, AreWords, update-AreWords}
use lib_checkpoint.Registers.{
  restore_csr_vector, rvh_csr_restore, rvv_restore, restore_float_vector, restore_int_vector_mret,
  restore_int_vector_jump, mret_registers, jump_registers, slot_registers, slot_address, int_loads,
}
use lib_checkpoint.Registers.Range.{int_loads-AreWords, load_sp-AreWords}
use lib_checkpoint.Restore.{
  all_cpu_num, mtimecmp_device, mtimecmp_source, Platform, restore_extensions, restore_state, leave,
  must_wait, single_core_rvv_rvh_rvgc_restore,
}
use lib_checkpoint.Restore.Range.Steps.{
  when-IsInRange, logged-IsInRange, restore_check-IsInRange, patch_slot-IsInRange, rvh-IsInRange,
  csrs-IsInRange, rvv-IsInRange, float-IsInRange, timer-IsInRange, clock-IsInRange,
}

slot_address-lt : (core0 mhartid : ℕ) → slot_address core0 mhartid < 2 ^ 64
unfolding slot_address
slot_address-lt core0 mhartid = omega arith

module _ {F : CsrFile} where
  extensions-IsInRange :
      (p : Platform) (cpu_id : ℕ) (l : Memlayout) (s : Machine F)
      → IsInRange s
      → IsInRange (restore_extensions p cpu_id l s).0
  unfolding restore_extensions
  extensions-IsInRange p cpu_id l s ok =
      let checked =
        checkpoint_ext_check (F.read s.csr csr_misa) s.mem l.csr_reg_cpt_addr l.mode_cpt_addr
          no_flags in
      when-IsInRange checked.0.rvf_could_restore _ _
        (λ t good.
          restore_check-IsInRange "Float" (restore_float_vector l.float_reg_cpt_addr t)
            (float-IsInRange l.float_reg_cpt_addr t good))
        (when-IsInRange checked.0.rvv_could_restore _ _
          (λ t good.
            restore_check-IsInRange "V"
              (rvv_restore p.vlenb l.csr_reg_cpt_addr l.vector_reg_cpt_addr t)
              (rvv-IsInRange p.vlenb l.csr_reg_cpt_addr l.vector_reg_cpt_addr t good))
          (when-IsInRange checked.0.rvh_could_restore _ _
            (λ t good.
              restore_check-IsInRange "H" (rvh_csr_restore l.csr_reg_cpt_addr t)
                (rvh-IsInRange l.csr_reg_cpt_addr t good))
            (when-IsInRange checked.0.should_jump_to_mepc _ _
              (patch_slot-IsInRange p.core0 cpu_id l)
              (logged-IsInRange s (s.log ++ checked.1) ok))))

  restore_state-IsInRange :
      (p : Platform) (cpu_id : ℕ) (l : Memlayout) (s : Machine F)
      → IsInRange s
      → IsInRange (restore_state p cpu_id l s).0
  unfolding restore_state
  restore_state-IsInRange p cpu_id l s ok =
      let listed =
        restore_check-IsInRange "CSR"
          (restore_csr_vector l.csr_reg_cpt_addr (restore_extensions p cpu_id l s).0)
          (csrs-IsInRange l.csr_reg_cpt_addr (restore_extensions p cpu_id l s).0
            (extensions-IsInRange p cpu_id l s ok)) in
      restore_check-IsInRange "MTIME_CMP" _
        (timer-IsInRange (mtimecmp_device cpu_id) (mtimecmp_source cpu_id l) _ listed)

  leave-IsInRange :
      (p : Platform) (l : Memlayout) (f : Flags) (s : Machine F)
      → p.core0 < 2 ^ 64
      → l.int_reg_cpt_addr < 2 ^ 64
      → IsInRange s
      → IsInRange (leave p l f s).0
  unfolding leave restore_int_vector_mret restore_int_vector_jump
  leave-IsInRange p l f s core0_fits base_fits ok = elim (Bool-cases (f.should_jump_to_mepc == 0)) [
    | inl stays ↦ rw stays (record {
      bytes = ok.bytes;
      gprs =
          load_sp-AreWords s.mem ok.bytes (int_loads mret_registers s.mem first)
            (int_loads-AreWords s.mem ok.bytes mret_registers first first_words);
      fprs = ok.fprs;
      vectors = ok.vectors;
    })
    | inr jumps ↦ rw jumps (record {
      bytes = ok.bytes;
      gprs =
          load_sp-AreWords s.mem ok.bytes (int_loads slot_registers s.mem there)
            (int_loads-AreWords s.mem ok.bytes slot_registers there there_words);
      fprs = ok.fprs;
      vectors = ok.vectors;
    })
  ]
    where
      first : ℕ → ℕ
      first = update s.gpr 2 l.int_reg_cpt_addr

      first_words : AreWords first
      first_words = update-AreWords s.gpr 2 l.int_reg_cpt_addr ok.gprs base_fits

      loaded : ℕ → ℕ
      loaded = int_loads jump_registers s.mem first

      there : ℕ → ℕ
      there = update (update loaded 6 p.core0) 5 (slot_address p.core0 p.mhartid)

      there_words : AreWords there
      there_words =
          update-AreWords (update loaded 6 p.core0) 5 (slot_address p.core0 p.mhartid)
            (update-AreWords loaded 6 p.core0
              (int_loads-AreWords s.mem ok.bytes jump_registers first first_words) core0_fits)
            (slot_address-lt p.core0 p.mhartid)

  -- A core whose layout has its integers at a 64-bit address leaves the restorer in range.
  pub single_core_rvv_rvh_rvgc_restore-IsInRange :
      (p : Platform) (cpu_id : ℕ) (l : Memlayout) (counter : ℕ) (s : Machine F)
      → p.core0 < 2 ^ 64
      → l.int_reg_cpt_addr < 2 ^ 64
      → IsInRange s
      → IsInRange (single_core_rvv_rvh_rvgc_restore p cpu_id (some l) counter s).0
  unfolding single_core_rvv_rvh_rvgc_restore
  single_core_rvv_rvh_rvgc_restore-IsInRange p cpu_id l counter s core0_fits base_fits ok =
      leave-IsInRange p l _ _ core0_fits base_fits
        (elim (Bool-cases (must_wait counter (all_cpu_num l s.mem))) [
          | inl waits ↦ rw waits met
          | inr leads ↦ rw leads (clock-IsInRange l _ met)
        ])
    where
      met : IsInRange (
          emit
            (mt_print "all cpu num %d atomic flag %d\n" (all_cpu_num l s.mem ∷ counter ∷ []))
            (restore_state p cpu_id l s).0)
      met =
          logged-IsInRange (restore_state p cpu_id l s).0 _
            (restore_state-IsInRange p cpu_id l s ok)
