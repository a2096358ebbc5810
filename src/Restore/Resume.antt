-- ===== src/Restore/Resume.antt =====
-- How a hart leaves the restorer: where it goes on, and with which integer registers.
use lib_checkpoint.Common.{
  ℕ, ◌+◌, ◌*◌, ◌%◌, ◌^◌, ◌≤◌, ◌<◌, ◌≡◌, ◌≢◌, ◌⊎◌, ◌∙◌, arith, [], ◌∷◌, true, some, if◌then◌else◌,
  ap,
}
use lib_checkpoint.Memory.{Memory, load32, load64, store64}
use lib_checkpoint.Memory.Laws.{
  store32_outside, store64_outside, load64-store64_apart, load32-store64_apart, load32-store32,
}
use lib_checkpoint.Console.{mt_print}
use lib_checkpoint.CsrLists.{clint_mmio, clint_mtime}
use lib_checkpoint.Layout.{Memlayout}
use lib_checkpoint.Jal.{patch_address, jal_word, is_jump, jump_target}
use lib_checkpoint.Jal.Slots.{patch_address-lt}
use lib_checkpoint.Jal.Reach.{displacement, IsNear, jal_word-lt, jal_word_reaches}
use lib_checkpoint.Extensions.{Flags}
use lib_checkpoint.Hart.{CsrFile, Machine, emit}
use lib_checkpoint.Registers.{restore_mtime, restore_int_vector_mret, restore_int_vector_jump}
use lib_checkpoint.Registers.Integers.{IsInt}
use lib_checkpoint.Restore.{
  Platform, Exit, by_mret, by_slot, mtimecmp_device, mtimecmp_source, restore_state, restore_clock,
  leave, must_wait, all_cpu_num, single_core_rvv_rvh_rvgc_restore,
}
use lib_checkpoint.Restore.Image.{
  flags, patched, IsClear, restore_state-flags, restore_state-mem, patched-load64,
}
use lib_checkpoint.Restore.Leave.{leave_jumps, leave_returns}

abbrev pub mtime_device : ℕ
mtime_device = clint_mmio + clint_mtime

-- The `n` bytes from `a` on meet neither device register that a core writes.
abbrev pub IsMemory : ℕ → ℕ → ℕ → Type 0
IsMemory cpu_id a n =
    ((a + n ≤ mtimecmp_device cpu_id) ⊎ (mtimecmp_device cpu_id + 8 ≤ a))
    × ((a + n ≤ mtime_device) ⊎ (mtime_device + 8 ≤ a))

module _ {F : CsrFile} (p : Platform) (cpu_id : ℕ) (l : Memlayout) (counter : ℕ)
    (s : Machine F) where
  abbrev pub finished : Machine F × Exit
  finished = single_core_rvv_rvh_rvgc_restore p cpu_id (some l) counter s

  -- the hart when it may leave
  abbrev released : Machine F
  released =
      let all = all_cpu_num l s.mem in
      let met : Machine F =
        emit (mt_print "all cpu num %d atomic flag %d\n" (all ∷ counter ∷ []))
          (restore_state p cpu_id l s).0 in
      if must_wait counter all then met else restore_clock l met

  finished_lem : finished ≡ leave p l (flags p cpu_id l s) released
  unfolding single_core_rvv_rvh_rvgc_restore
  finished_lem = ap (λ (f : Flags). leave p l f released) (restore_state-flags p cpu_id l s)

  -- memory when the hart leaves, from that after `restore_state`
  abbrev clocked : Memory → Memory
  clocked m =
      if must_wait counter (all_cpu_num l s.mem)
      then m
      else store64 m mtime_device (load64 m l.mtime_cpt_addr)

  finished-mem :
      finished.0.mem
      ≡ clocked (
          store64
            (patched p cpu_id l s)
            (mtimecmp_device cpu_id)
            (load64 (patched p cpu_id l s) (mtimecmp_source cpu_id l)))
  unfolding single_core_rvv_rvh_rvgc_restore restore_clock leave restore_mtime
      restore_int_vector_mret restore_int_vector_jump
  finished-mem = ground (arith, restore_state-mem p cpu_id l s)

  -- What is in ordinary memory when the hart leaves, and is not the patched word, is what was there.
  finished-load64 :
      (a : ℕ)
      → IsClear p cpu_id l s a 8
      → IsMemory cpu_id a 8
      → load64 finished.0.mem a ≡ load64 s.mem a
  finished-load64 a clear off = ground (
    arith,
    ap (λ (m : Memory). load64 m a) finished-mem,
    load64-store64_apart before mtime_device (load64 before l.mtime_cpt_addr) a,
    load64-store64_apart (patched p cpu_id l s) (mtimecmp_device cpu_id)
        (load64 (patched p cpu_id l s) (mtimecmp_source cpu_id l)) a,
    patched-load64 p cpu_id l s a clear,
  )
    where
      before : Memory
      before =
          store64 (patched p cpu_id l s) (mtimecmp_device cpu_id)
            (load64 (patched p cpu_id l s) (mtimecmp_source cpu_id l))

  -- When the hart leaves, memory is what it was but for the patched word and the two devices.
  pub finished_frame :
      (j : ℕ) → IsClear p cpu_id l s j 1 → IsMemory cpu_id j 1 → finished.0.mem j ≡ s.mem j
  finished_frame j clear off = ground (
    arith,
    ap (λ (m : Memory). m j) finished-mem,
    store64_outside before mtime_device (load64 before l.mtime_cpt_addr) j,
    store64_outside (patched p cpu_id l s) (mtimecmp_device cpu_id)
        (load64 (patched p cpu_id l s) (mtimecmp_source cpu_id l)) j,
    store32_outside s.mem (patch_address p.core0 cpu_id)
        (jal_word (patch_address p.core0 cpu_id) (load64 s.mem l.pc_cpt_addr)) j,
  )
    where
      before : Memory
      before =
          store64 (patched p cpu_id l s) (mtimecmp_device cpu_id)
            (load64 (patched p cpu_id l s) (mtimecmp_source cpu_id l))

  -- The patched word is still there when the hart leaves.
  finished-word :
      (flags p cpu_id l s).should_jump_to_mepc ≢ 0
      → IsMemory cpu_id (patch_address p.core0 cpu_id) 4
      → load32 finished.0.mem (patch_address p.core0 cpu_id)
        ≡ jal_word (patch_address p.core0 cpu_id) (load64 s.mem l.pc_cpt_addr)
  finished-word jumps off = ground (
    arith,
    ap (λ (m : Memory). load32 m pc) finished-mem,
    load32-store64_apart before mtime_device (load64 before l.mtime_cpt_addr) pc,
    load32-store64_apart (patched p cpu_id l s) (mtimecmp_device cpu_id)
        (load64 (patched p cpu_id l s) (mtimecmp_source cpu_id l)) pc,
    load32-store32 s.mem pc (jal_word pc (load64 s.mem l.pc_cpt_addr)),
    jal_word-lt pc (load64 s.mem l.pc_cpt_addr),
  )
    where
      pc : ℕ
      pc = patch_address p.core0 cpu_id

      before : Memory
      before =
          store64 (patched p cpu_id l s) (mtimecmp_device cpu_id)
            (load64 (patched p cpu_id l s) (mtimecmp_source cpu_id l))

  leaves_by_jump :
      (i : ℕ)
      → (flags p cpu_id l s).should_jump_to_mepc ≢ 0
      → p.mhartid ≡ cpu_id
      → p.core0 + cpu_id * 16 + 12 < 2 ^ 64
      → IsInt i
      → (finished.1 ≡ by_slot (patch_address p.core0 cpu_id))
        × (finished.0.gpr i ≡ load64 finished.0.mem (l.int_reg_cpt_addr + i * 8))
  leaves_by_jump i jumps here fits range =
      let (exit, same) =
        leave_jumps p l (flags p cpu_id l s) released i jumps (rw here fits) range in
      rw finished_lem (exit ∙ ap (λ (hart : ℕ). by_slot (patch_address p.core0 hart)) here, same)

  -- A core in machine mode, numbered as its hart, with its slot below `2 ^ 64` and in ordinary
  -- memory and a target in reach of a `jal` at an even distance, leaves by the word of its own
  -- slot. That word is by then a jump to the target, and every integer register holds its value
  -- of the image, as far as that lies in ordinary memory beside the slot.
  pub resume_by_jump :
      (i : ℕ)
      → (flags p cpu_id l s).should_jump_to_mepc ≢ 0
      → p.mhartid ≡ cpu_id
      → p.core0 + cpu_id * 16 + 12 < 2 ^ 64
      → load64 s.mem l.pc_cpt_addr < 2 ^ 64
      → displacement (patch_address p.core0 cpu_id) (load64 s.mem l.pc_cpt_addr) % 2 ≡ 0
      → IsNear (patch_address p.core0 cpu_id) (load64 s.mem l.pc_cpt_addr)
      → IsMemory cpu_id (patch_address p.core0 cpu_id) 4
      → IsInt i
      → IsClear p cpu_id l s (l.int_reg_cpt_addr + i * 8) 8
      → IsMemory cpu_id (l.int_reg_cpt_addr + i * 8) 8
      → (finished.1 ≡ by_slot (patch_address p.core0 cpu_id))
        × (is_jump (load32 finished.0.mem (patch_address p.core0 cpu_id)) ≡ true)
        × (jump_target
              (patch_address p.core0 cpu_id)
              (load32 finished.0.mem (patch_address p.core0 cpu_id))
            ≡ load64 s.mem l.pc_cpt_addr)
        × (finished.0.gpr i ≡ load64 s.mem (l.int_reg_cpt_addr + i * 8))
  resume_by_jump i jumps here fits small even near off range clear off_i =
      let pc = patch_address p.core0 cpu_id in
      let target = load64 s.mem l.pc_cpt_addr in
      let (word, jump, lands) =
        jal_word_reaches pc target (patch_address-lt p.core0 cpu_id) small even near in
      let stays = finished-word jumps off in
      let (exit, same) = leaves_by_jump i jumps here fits range in
      (
        exit,
        rw stays jump,
        rw stays lands,
        same ∙ finished-load64 (l.int_reg_cpt_addr + i * 8) clear off_i,
      )

  leaves_by_mret :
      (i : ℕ)
      → (flags p cpu_id l s).should_jump_to_mepc ≡ 0
      → IsInt i
      → (finished.1 ≡ by_mret)
        × (finished.0.gpr i ≡ load64 finished.0.mem (l.int_reg_cpt_addr + i * 8))
  leaves_by_mret i stays range =
      rw finished_lem (leave_returns p l (flags p cpu_id l s) released i stays range)

  -- A core not in machine mode leaves by `mret`, with every integer register as in the image, as
  -- far as that lies in ordinary memory beside the slot.
  pub resume_by_mret :
      (i : ℕ)
      → (flags p cpu_id l s).should_jump_to_mepc ≡ 0
      → IsInt i
      → IsClear p cpu_id l s (l.int_reg_cpt_addr + i * 8) 8
      → IsMemory cpu_id (l.int_reg_cpt_addr + i * 8) 8
      → (finished.1 ≡ by_mret) × (finished.0.gpr i ≡ load64 s.mem (l.int_reg_cpt_addr + i * 8))
  resume_by_mret i stays range clear off =
      let (exit, same) = leaves_by_mret i stays range in
      (exit, same ∙ finished-load64 (l.int_reg_cpt_addr + i * 8) clear off)
