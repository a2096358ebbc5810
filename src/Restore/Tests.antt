-- ===== src/Restore/Tests.antt =====
-- The restorer on one core, with an image at the built-in absolute addresses.
use lib_checkpoint.Common.{ℕ, ◌+◌, ◌*◌, ◌^◌, ◌≡◌, ◌≢◌, inl, refl, arith}
use lib_checkpoint.Memory.{Memory, load32, load64, store32, store64}
use lib_checkpoint.Encoding.{csr_mstatus, csr_misa}
use lib_checkpoint.Layout.{Memlayout, default_rvgc_v_h_memlayout}
use lib_checkpoint.Extensions.{check_mode, check_h, check_v, check_f, checkpoint_ext_check}
use lib_checkpoint.Hart.{Machine}
use lib_checkpoint.Hart.Sample.{plain_csrs, blank}
use lib_checkpoint.Registers.{csr_slot}
use lib_checkpoint.Restore.{all_cpu_num, Platform}
use lib_checkpoint.Restore.Image.{flags}
use lib_checkpoint.Restore.Images.{IsShared, images_kept}
use lib_checkpoint.Restore.Resume.{finished}

abbrev platform : Platform
platform = record { core0 = 0x80000100; mhartid = 0; vlenb = 16 }

abbrev layout : Memlayout
layout = default_rvgc_v_h_memlayout

-- One core with V and D in use, at 0x80000000, with 0x55 in register `sp`.
abbrev image : ℕ → Memory
image mode =
    store64
      (store64
        (store64
          (store64
            (store64 (store64 (store64 (λ _. 0) layout.csr_reserve 1) layout.mode_cpt_addr mode)
              layout.pc_cpt_addr 0x80000000)
            (layout.int_reg_cpt_addr + 16) 0x55)
          (layout.float_reg_cpt_addr + 24) 0x66)
        (csr_slot layout.csr_reg_cpt_addr csr_misa) (2 ^ 21 + 2 ^ 3))
      (csr_slot layout.csr_reg_cpt_addr csr_mstatus) (3 * 2 ^ 13 + 3 * 2 ^ 9)

abbrev hart : ℕ → Machine plain_csrs
hart mode = record (blank (image mode)) { csr = λ _. 2 ^ 21 + 2 ^ 3 }

flags_test :
    (flags platform 0 layout (hart 3) ≡ record {
      rvv_could_restore = 1;
      rvh_could_restore = 0;
      rvf_could_restore = 1;
      should_jump_to_mepc = 1;
    })
    × ((flags platform 0 layout (hart 1)).should_jump_to_mepc ≡ 0)
unfolding checkpoint_ext_check check_mode check_h check_v check_f load64 load32 store64 store32
flags_test = (refl, refl)

-- One core; and a saved word that is negative as an `int`.
all_cpu_num_test :
    (all_cpu_num layout (image 3) ≡ 1) × (all_cpu_num layout (λ _. 0xff) ≡ 0xffffffffffffffff)
unfolding all_cpu_num load64 load32 store64 store32
all_cpu_num_test = (refl, refl)

in_machine_mode : (flags platform 0 layout (hart 3)).should_jump_to_mepc ≢ 0
unfolding checkpoint_ext_check check_mode check_h check_v check_f load64 load32 store64 store32
in_machine_mode e = omega arith

placed : IsShared 0x80000100 0x800ECDB0 0x13250
placed = record {
  images_in_memory = omega arith;
  slots_in_memory = omega arith;
  slots_fit = omega arith;
  apart = inl (omega arith);
}

images_kept_example : (finished platform 0 layout 1 (hart 3)).0.mem 0x800ECDB8 ≡ image 3 0x800ECDB8
images_kept_example =
    images_kept platform 0x800ECDB0 0x13250 0 layout 1 (hart 3) placed (omega arith) 0x800ECDB8
      (omega arith) (omega arith)
