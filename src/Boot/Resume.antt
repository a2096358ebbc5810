-- ===== src/Boot/Resume.antt =====
-- From the entry of a hart to the program that was saved: the parts put together.
pub mod Tests
use lib_checkpoint.Common.{
  ℕ, ◌+◌, ◌*◌, ◌%◌, ◌^◌, ◌≤◌, ◌<◌, ◌≡◌, ◌≢◌, ◌⊎◌, ◌∙◌, inl, inr, refl, ap, sym, arith, false,
  Option, some,
}
use lib_checkpoint.Memory.{load64}
use lib_checkpoint.Restore.Images.{dram}
use lib_checkpoint.Layout.{CheckpointHeader, Memlayout, get_core_memlayout}
use lib_checkpoint.Layout.Regions.{IsLaidOut, core_regions-Within}
use lib_checkpoint.Jal.{patch_address}
use lib_checkpoint.Jal.Slots.{slot_count, patch_address_lem}
use lib_checkpoint.Hart.{CsrFile, Machine}
use lib_checkpoint.Registers.Integers.{IsInt}
use lib_checkpoint.Restore.{Build, Platform, Exit, by_mret, is_cpu}
use lib_checkpoint.Restore.Image.{IsClear, flags}
use lib_checkpoint.Restore.Resume.{IsMemory, finished, resume_by_mret}
use lib_checkpoint.Extensions.Criteria.{stays_in_mode}
use lib_checkpoint.Boot.{Mode, Decoder, Symbols, Outcome, restored, gcpt_c_start, start}
use lib_checkpoint.Boot.Decision.{gcpt_c_start_restores}

-- A core whose image and whose slot are in memory, apart from each other.
pub record IsPlaced (core0 base_addr single_core_size cpu_id : ℕ) (l : Memlayout) : Type 0 where
  pub laid : IsLaidOut single_core_size l
  pub fits : base_addr + (cpu_id + 1) * single_core_size ≤ 2 ^ 64
  pub image_in_memory : dram ≤ base_addr
  pub has_slot : cpu_id < slot_count
  pub slots_in_memory : dram ≤ core0
  pub slots_fit : core0 + slot_count * 16 < 2 ^ 64
  pub apart :
      (core0 + slot_count * 16 ≤ base_addr) ⊎ (base_addr + (cpu_id + 1) * single_core_size ≤ core0)

module _ {F : CsrFile} (p : Platform) (base_addr single_core_size cpu_id : ℕ) (l : Memlayout)
    (s : Machine F) (placed : IsPlaced p.core0 base_addr single_core_size cpu_id l) where
  open placed use {laid, fits, image_in_memory, has_slot, slots_in_memory, slots_fit, apart}

  abbrev pub core : Memlayout
  core = get_core_memlayout base_addr single_core_size cpu_id l

  pub slot_lem : patch_address p.core0 cpu_id ≡ p.core0 + cpu_id * 16 + 12
  slot_lem = patch_address_lem p.core0 cpu_id (omega arith)

  pub slot_fits : p.core0 + cpu_id * 16 + 12 < 2 ^ 64
  slot_fits = omega arith

  pub int-IsClear : (i : ℕ) → IsInt i → IsClear p cpu_id core s (core.int_reg_cpt_addr + i * 8) 8
  int-IsClear i range =
      ground (arith, slot_lem, core_regions-Within base_addr single_core_size cpu_id l laid fits)

  pub int-IsMemory : (i : ℕ) → IsMemory cpu_id (core.int_reg_cpt_addr + i * 8) 8
  int-IsMemory i = omega (arith, core_regions-Within base_addr single_core_size cpu_id l laid fits)

  pub slot-IsMemory : IsMemory cpu_id (patch_address p.core0 cpu_id) 4
  slot-IsMemory = omega (arith, slot_lem)

module _ {F : CsrFile} (y : Symbols) (d : Decoder) (mode : Mode) (b : Build) (p : Platform)
    (cpu_id start_address counter : ℕ) (s : Machine F) (h : CheckpointHeader) (l : Memlayout) where
  abbrev pub begun : Machine F
  begun = (start y d mode cpu_id start_address s).1

  -- where the images of the cores begin
  abbrev pub base : ℕ
  base = (start_address + h.cpt_offset) % 2 ^ 64

  abbrev pub mine : Memlayout
  mine = get_core_memlayout base h.single_core_size cpu_id l

  abbrev pub slot : ℕ
  slot = patch_address p.core0 cpu_id

  abbrev pub done : Machine F × Exit
  done = finished p cpu_id mine counter begun

  pub ends_restored :
      (start y d mode cpu_id start_address s).0 ≡ some (h, l)
      → is_cpu b.stop_cpu cpu_id ≡ false
      → is_cpu b.display cpu_id ≡ false
      → gcpt_c_start y d mode b p cpu_id start_address counter s ≡ restored done.0 done.1
  ends_restored chosen runs hidden =
      let (t, e, outcome, ran) =
        gcpt_c_start_restores y d mode b p cpu_id start_address counter s h l chosen runs hidden in
      outcome ∙ sym (ap (λ (r : Machine F × Exit). restored r.0 r.1) ran)

  -- A hart that has chosen a checkpoint, is neither the one to be stopped nor the one to be
  -- displayed, and whose image and slot are in memory apart from each other, goes on by `mret` if the
  -- saved mode is not machine mode, and every integer register is what the image had at the choice.
  pub gcpt_c_start_returns :
      (i : ℕ)
      → (start y d mode cpu_id start_address s).0 ≡ some (h, l)
      → is_cpu b.stop_cpu cpu_id ≡ false
      → is_cpu b.display cpu_id ≡ false
      → IsPlaced p.core0 base h.single_core_size cpu_id l
      → load64 begun.mem mine.mode_cpt_addr % 2 ^ 53 ≢ 3
      → IsInt i
      → (t : Machine F) × (gcpt_c_start y d mode b p cpu_id start_address counter s
          ≡ restored t by_mret)
        × (t.gpr i ≡ load64 begun.mem (mine.int_reg_cpt_addr + i * 8))
  gcpt_c_start_returns i chosen runs hidden placed other range =
      let (exit, same) =
        resume_by_mret p cpu_id mine counter begun i
          (stays_in_mode _ begun.mem mine.csr_reg_cpt_addr mine.mode_cpt_addr other) range
          (int-IsClear p base h.single_core_size cpu_id l begun placed i range)
          (int-IsMemory p base h.single_core_size cpu_id l begun placed i) in
      (done.0, ends_restored chosen runs hidden ∙ ap (restored done.0) exit, same)
