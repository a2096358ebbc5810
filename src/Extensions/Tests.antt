-- ===== src/Extensions/Tests.antt =====
-- A checkpoint of a hart with all extensions that was running in machine mode.
use lib_checkpoint.Common.{◌+◌, ◌*◌, ◌%◌, ◌^◌, ◌≡◌, ◌≢◌, ◌↔◌, ◌⊎◌, refl}
use lib_checkpoint.Memory.{Memory, load32, load64, store32, store64}
use lib_checkpoint.Encoding.{csr_mstatus, csr_misa}
use lib_checkpoint.Extensions.{
  Flags, no_flags, check_mode, check_h, check_v, check_f, checkpoint_ext_check,
}
use lib_checkpoint.Extensions.Criteria.{bit, state_field, checkpoint_ext_check_lem}

-- V, H, F and D, with both states dirty and MPV set, and the mode 3
abbrev image : Memory
image =
    store64
      (store64 (store64 (λ _. 0) (0x1000 + csr_misa * 8) (2 ^ 21 + 2 ^ 7 + 2 ^ 5 + 2 ^ 3))
        (0x1000 + csr_mstatus * 8) (2 ^ 39 + 3 * 2 ^ 13 + 3 * 2 ^ 9))
      0x10 3

abbrev checked : Flags
checked = (checkpoint_ext_check (2 ^ 21 + 2 ^ 3) image 0x1000 0x10 no_flags).0

-- The host has V and D, but not H.
ext_check_test :
    (checked.rvv_could_restore ≡ 1)
    × (checked.rvh_could_restore ≡ 0)
    × (checked.rvf_could_restore ≡ 1)
    × (checked.should_jump_to_mepc ≡ 1)
unfolding checkpoint_ext_check check_mode check_h check_v check_f load64 load32 store64 store32
ext_check_test = (refl, refl, refl, refl)

checkpoint_ext_check_example :
    ((checked.rvv_could_restore ≡ 1) ↔ (
      (bit 21 (load64 image 0x2808) ≡ 1)
      × (bit 21 (2 ^ 21 + 2 ^ 3) ≡ 1)
      × (state_field 9 (load64 image 0x2800) ≢ 0)))
    × ((checked.rvf_could_restore ≡ 1) ↔ (
        ((bit 3 (load64 image 0x2808) ≡ 1) ⊎ (bit 5 (load64 image 0x2808) ≡ 1))
        × ((bit 3 (2 ^ 21 + 2 ^ 3) ≡ 1) ⊎ (bit 5 (2 ^ 21 + 2 ^ 3) ≡ 1))
        × (state_field 13 (load64 image 0x2800) ≢ 0)))
    × ((checked.rvh_could_restore ≡ 1) ↔ (
        (bit 7 (load64 image 0x2808) ≡ 1)
        × (bit 7 (2 ^ 21 + 2 ^ 3) ≡ 1)
        × (bit 39 (load64 image 0x2800) ≡ 1)))
    × ((checked.should_jump_to_mepc ≡ 1) ↔ (load64 image 0x10 % 2 ^ 53 ≡ 3))
checkpoint_ext_check_example = checkpoint_ext_check_lem (2 ^ 21 + 2 ^ 3) image 0x1000 0x10
