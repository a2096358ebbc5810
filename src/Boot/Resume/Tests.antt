-- ===== src/Boot/Resume/Tests.antt =====
-- Core 1 of a checkpoint behind a header at the start of DRAM, with the slots above the images.
use lib_checkpoint.Common.{ℕ, ◌+◌, ◌*◌, ◌≡◌, inr, refl, arith, some, ◌==◌, if◌then◌else◌}
use lib_checkpoint.Memory.{Memory, put, load32, load64, store32, store64}
use lib_checkpoint.Layout.{
  Memlayout, multicore_default_header, default_multicore_layout, get_core_memlayout, core_offset,
}
use lib_checkpoint.Layout.Tests.{multicore-IsLaidOut}
use lib_checkpoint.Hart.{Machine}
use lib_checkpoint.Hart.Sample.{plain_csrs, blank}
use lib_checkpoint.Trap.{enable_gcpt_trap}
use lib_checkpoint.Encoding.{csr_mstatus}
use lib_checkpoint.Registers.{csr_slot, vector_bytes}
use lib_checkpoint.Registers.Tests.{mstatus-IsLast}
use lib_checkpoint.Restore.Image.{flags}
use lib_checkpoint.Boot.Registers.{gcpt_c_start_registers}
use lib_checkpoint.Restore.{Platform, Exit, by_mret}
use lib_checkpoint.Boot.{
  default_config, plan_default, header_decode, memlayout_decode, plan, enter_bss, start, restored,
  gcpt_c_start,
}
use lib_checkpoint.Boot.Tests.{decoder, symbols, build}
use lib_checkpoint.Boot.Resume.{IsPlaced, gcpt_c_start_returns}

abbrev platform : Platform
platform = record { core0 = 0x80F00000; mhartid = 1; vlenb = 16 }

-- The saved mode, and 0x80F00100 as the saved program counter.
abbrev image : ℕ → Memory
image mode = store64 (store64 (put (λ _. 0) 0x80000000 1) 0x801000b8 mode) 0x801000b0 0x80F00100

abbrev hart : ℕ → Machine plain_csrs
hart mode = blank (image mode)

abbrev core : Memlayout
core = get_core_memlayout 0x800000a8 0x100000 1 default_multicore_layout

placed : IsPlaced 0x80F00000 0x800000a8 0x100000 1 default_multicore_layout
placed = record {
  laid = multicore-IsLaidOut;
  fits = omega arith;
  image_in_memory = omega arith;
  has_slot = omega arith;
  slots_in_memory = omega arith;
  slots_fit = omega arith;
  apart = inr (omega arith);
}

chosen :
    (mode : ℕ)
    → (start symbols decoder default_config 1 0x80000000 (hart mode)).0
      ≡ some (multicore_default_header, default_multicore_layout)
unfolding start enter_bss plan plan_default header_decode memlayout_decode enable_gcpt_trap store64
    store32
chosen mode = refl

saved :
    (load64 (start symbols decoder default_config 1 0x80000000 (hart 3)).1.mem core.mode_cpt_addr
      ≡ 3)
    × (load64 (start symbols decoder default_config 1 0x80000000 (hart 3)).1.mem core.pc_cpt_addr
        ≡ 0x80F00100)
    × (load64 (start symbols decoder default_config 1 0x80000000 (hart 1)).1.mem core.mode_cpt_addr
        ≡ 1)
unfolding start enter_bss plan plan_default header_decode memlayout_decode enable_gcpt_trap store64
    store32 load64 load32 get_core_memlayout core_offset
saved = (refl, refl, refl)

gcpt_c_start_returns_example :
    (t : Machine plain_csrs) × (gcpt_c_start symbols decoder default_config build platform 1
        0x80000000 2
        (hart 1)
      ≡ restored t by_mret)
    × (t.gpr 2
        ≡ load64
            (start symbols decoder default_config 1 0x80000000 (hart 1)).1.mem
            (core.int_reg_cpt_addr + 2 * 8))
gcpt_c_start_returns_example =
    gcpt_c_start_returns symbols decoder default_config build platform 1 0x80000000 2 (hart 1)
      multicore_default_header default_multicore_layout 2 (chosen 1) refl refl placed
      (λ e. omega (arith, saved.2)) (omega arith, omega arith)

gcpt_c_start_registers_example :
    let from = (start symbols decoder default_config 1 0x80000000 (hart 3)).1 in
    (t : Machine plain_csrs) × (e : Exit) × (gcpt_c_start symbols decoder default_config build
        platform 1 0x80000000 2
        (hart 3)
      ≡ restored t e)
    × (t.csr csr_mstatus ≡ load64 from.mem (csr_slot core.csr_reg_cpt_addr csr_mstatus))
    × (t.fpr 3 ≡ (
        if (flags platform 1 core from).rvf_could_restore == 0
        then from.fpr 3
        else load64 from.mem (core.float_reg_cpt_addr + 3 * 8)))
    × (t.vreg 3 ≡ (
        if (flags platform 1 core from).rvv_could_restore == 0
        then from.vreg 3
        else vector_bytes 16 (core.vector_reg_cpt_addr + 3 * 16) from.mem))
gcpt_c_start_registers_example =
    gcpt_c_start_registers symbols decoder default_config build platform 1 0x80000000 2 (hart 3)
      multicore_default_header default_multicore_layout placed 6 "mstatus" csr_mstatus 3 (chosen 3)
      refl refl (omega arith) (omega arith) refl mstatus-IsLast tt
