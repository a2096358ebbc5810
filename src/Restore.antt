-- ===== src/Restore.antt =====
-- src/decode_restore.c: `multicore_decode_restore` and `single_core_rvv_rvh_rvgc_restore`, which one
-- hart runs for its core. The meeting of the cores, between `restore_state` and `leave`, is in
-- Barrier; what a core does there to the devices is `restore_clock`.
pub mod Image
pub mod Leave
pub mod Resume
pub mod Images
pub mod Range
pub mod Tests
use Prim.Native.String.{◌++◌ as join}
use lib_checkpoint.Common.{
  ℕ, false, ◌&&◌, not, ◌+◌, ◌-◌, ◌*◌, ◌%◌, ◌^◌, Bool, String, Option, none, some, List, [], ◌∷◌,
  ◌++◌, ltb, ◌==◌, if◌then◌else◌,
}
use lib_checkpoint.Common.Int.{signed32}
use lib_checkpoint.Memory.{Memory, load64, store32}
use lib_checkpoint.Console.{Event, print, mt_print, signal, clear_cache, gcpt_get_bad_imm}
use lib_checkpoint.Encoding.{csr_misa}
use lib_checkpoint.CsrLists.{clint_mmio, clint_mtimecmp}
use lib_checkpoint.Layout.{Memlayout, default_rvgc_v_h_memlayout, get_core_memlayout}
use lib_checkpoint.Jal.{patch_address, jal_distance, jal_word, is_valid_imm}
use lib_checkpoint.Extensions.{Flags, no_flags, checkpoint_ext_check}
use lib_checkpoint.Display.{display_checkpoint_registers}
use lib_checkpoint.Hart.{CsrFile, Machine, emit}
use lib_checkpoint.Registers.{
  restore_csr_vector, rvh_csr_restore, rvv_restore, restore_float_vector, restore_mtime,
  restore_mtime_cmp, restore_int_vector_mret, restore_int_vector_jump,
}

-- What the code takes from the outside: the address of the label `core0`, the number of the hart
-- (`mhartid`), and the bytes of a vector register (VLEN / 8).
pub record Platform : Type 0 where
  pub core0 : ℕ
  pub mhartid : ℕ
  pub vlenb : ℕ

-- `memlayout = &default_rvgc_v_h_memlayout` for a null pointer
abbrev pub chosen_layout : Option Memlayout → Memlayout
chosen_layout none = default_rvgc_v_h_memlayout
chosen_layout (some l) = l

-- `int all_cpu_num`, as the comparison with the 64-bit counter widens it
unfoldable pub all_cpu_num : Memlayout → Memory → ℕ
all_cpu_num l m =
    let word = load64 m l.csr_reserve % 2 ^ 32 in
    if ltb word (2 ^ 31) then word else word + 2 ^ 64 - 2 ^ 32

abbrev pub mtimecmp_device : ℕ → ℕ
mtimecmp_device cpu_id = clint_mmio + clint_mtimecmp + cpu_id * 8

abbrev pub mtimecmp_source : ℕ → Memlayout → ℕ
mtimecmp_source cpu_id l = (l.mtime_cmp_cpt_addr + cpu_id * 8) % 2 ^ 64

-- `if (flag) { … }`
abbrev pub when {ℓ} : {A : Type ℓ} → ℕ → (A → A) → A → A
when flag f s = if flag == 0 then s else f s

-- How a hart goes on: by `mret`, or at the word of its slot at an address.
pub data Exit : Type 0 where
  by_mret : Exit
  by_slot : ℕ → Exit

-- `counter != all_cpu_num && all_cpu_num != 0`
unfoldable pub must_wait : ℕ → ℕ → Bool
must_wait counter all = not (counter == all) && not (all == 0)

-- The options of `configure`: `STOP_CPU` and `DISPLAY`.
pub record Build : Type 0 where
  pub stop_cpu : Option ℕ
  pub display : Option ℕ

abbrev pub is_cpu : Option ℕ → ℕ → Bool
is_cpu none cpu_id = false
is_cpu (some n) cpu_id = n == cpu_id

module _ {F : CsrFile} where
  -- the macro `RESTORE_CHECK`, with success at 1
  unfoldable pub restore_check : String → Machine F × ℕ → Machine F
  restore_check name (s, status) =
      if status == 1
      then emit (print (join name " restore success\n") []) s
      else emit (print (join name " restore failed\n") []) s

  -- The report of a target out of range, after which the code goes on.
  unfoldable pub check_range : ℕ → ℕ → Machine F → Machine F
  check_range pc target_pc s =
      if is_valid_imm (signed32 (jal_distance pc target_pc))
      then s
      else emit (signal gcpt_get_bad_imm) (
          emit
            (mt_print "Offset is out of range for JAL instruction pc is %p jump target addr is %p\n"
              (pc ∷ target_pc ∷ []))
            s)

  -- the block `if (should_jump_to_mepc) { … }`
  unfoldable pub patch_slot : ℕ → ℕ → Memlayout → Machine F → Machine F
  unfolding check_range
  patch_slot core0 cpu_id l s =
      let target_pc = load64 s.mem l.pc_cpt_addr in
      let pc = patch_address core0 cpu_id in
      let checked = check_range pc target_pc s in
      emit (clear_cache pc (pc + 4))
        (record checked { mem = store32 checked.mem pc (jal_word pc target_pc) })

  -- The flags, the jump of an M-mode checkpoint, and the extensions that can be restored.
  unfoldable pub restore_extensions : Platform → ℕ → Memlayout → Machine F → Machine F × Flags
  unfolding restore_check patch_slot
  restore_extensions p cpu_id l s =
      let (flags, printed) =
        checkpoint_ext_check (F.read s.csr csr_misa) s.mem l.csr_reg_cpt_addr l.mode_cpt_addr
          no_flags in
      let s0 : Machine F = record s { log = s.log ++ printed } in
      let s1 = when flags.should_jump_to_mepc (patch_slot p.core0 cpu_id l) s0 in
      let s2 =
        when flags.rvh_could_restore
          (λ (t : Machine F). restore_check "H" (rvh_csr_restore l.csr_reg_cpt_addr t)) s1 in
      let s3 =
        when flags.rvv_could_restore
          (λ (t : Machine F).
            restore_check "V" (rvv_restore p.vlenb l.csr_reg_cpt_addr l.vector_reg_cpt_addr t))
          s2 in
      let s4 =
        when flags.rvf_could_restore
          (λ (t : Machine F). restore_check "Float" (restore_float_vector l.float_reg_cpt_addr t))
          s3 in
      (s4, flags)

  -- Everything up to the meeting of the cores; the flags are kept for the way out.
  unfoldable pub restore_state : Platform → ℕ → Memlayout → Machine F → Machine F × Flags
  unfolding restore_check
  restore_state p cpu_id l s =
      let (s4, flags) = restore_extensions p cpu_id l s in
      let s5 = restore_check "CSR" (restore_csr_vector l.csr_reg_cpt_addr s4) in
      let s6 =
        restore_check "MTIME_CMP"
          (restore_mtime_cmp (mtimecmp_device cpu_id) (mtimecmp_source cpu_id l) s5) in
      (s6, flags)

  -- what the core that releases the others does after `atomic_set(&release_restore, 1)`
  unfoldable pub restore_clock : Memlayout → Machine F → Machine F
  unfolding restore_check
  restore_clock l s = restore_check "MTIME" (restore_mtime l.mtime_cpt_addr s)

  unfoldable pub leave : Platform → Memlayout → Flags → Machine F → Machine F × Exit
  leave p l flags s =
      if flags.should_jump_to_mepc == 0
      then (restore_int_vector_mret l.int_reg_cpt_addr s, by_mret)
      else let (t, word) = restore_int_vector_jump p.core0 p.mhartid l.int_reg_cpt_addr s in
        (t, by_slot word)

  -- One hart's run. `counter` is what the shared counter shows after this hart has added one to it;
  -- a hart that must wait goes on once another has set `release_restore` (Barrier).
  unfoldable pub single_core_rvv_rvh_rvgc_restore :
      Platform → ℕ → Option Memlayout → ℕ → Machine F → Machine F × Exit
  unfolding must_wait
  single_core_rvv_rvh_rvgc_restore p cpu_id layout counter s =
      let l = chosen_layout layout in
      let all = all_cpu_num l s.mem in
      let (t, flags) = restore_state p cpu_id l s in
      let met : Machine F =
        emit (mt_print "all cpu num %d atomic flag %d\n" (all ∷ counter ∷ [])) t in
      let released : Machine F = if must_wait counter all then met else restore_clock l met in
      leave p l flags released

  -- `none`: the hart is the one that `STOP_CPU` names, and loops for ever.
  unfoldable pub multicore_decode_restore :
      Build → Platform → ℕ → ℕ → ℕ → Memlayout → ℕ → Machine F → Option (Machine F × Exit)
  multicore_decode_restore b p cpt_base_address single_core_size cpu_id memlayout counter s =
      let l = get_core_memlayout cpt_base_address single_core_size cpu_id memlayout in
      if is_cpu b.stop_cpu cpu_id
      then none
      else (let shown : Machine F =
            if is_cpu b.display cpu_id
            then record s { log = s.log ++ display_checkpoint_registers l s.mem }
            else s in
          some (single_core_rvv_rvh_rvgc_restore p cpu_id (some l) counter shown))
