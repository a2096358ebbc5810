-- ===== src/Extensions/Criteria.antt =====
-- The exact conditions under which `checkpoint_ext_check` sets each flag, as bits of the registers.
use lib_checkpoint.Common.{ℕ, ◌+◌, ◌*◌, ◌/◌, ◌%◌, ◌^◌, ◌≡◌, ◌≢◌, ◌↔◌, ◌⊎◌, arith, bit_and}
use lib_checkpoint.Common.Bits.{bit_and-bit, bit_and-pair, bit_and_shift, bit_and-five}
use lib_checkpoint.Encoding.{csr_mstatus, csr_misa, misa_df}
use lib_checkpoint.Memory.{Memory, load64}
use lib_checkpoint.Extensions.{Flags, no_flags, checkpoint_ext_check}

abbrev pub bit : ℕ → ℕ → ℕ
bit k x = x / 2 ^ k % 2

-- the two-bit field of `mstatus` that begins at bit `k`; 0 is "off"
abbrev pub state_field : ℕ → ℕ → ℕ
state_field k x = x / 2 ^ k % 4

df_bits : (x : ℕ) → bit_and x misa_df ≡ (bit 5 x * 4 + bit 3 x) * 8
df_bits x = ground (arith, bit_and_shift 3 x 5, bit_and-five (x / 8))

module _ (host_misa : ℕ) (m : Memory) (csr_address mode_address : ℕ) where
  abbrev mstatus : ℕ
  mstatus = load64 m (csr_address + csr_mstatus * 2 ^ 3)

  abbrev misa : ℕ
  misa = load64 m (csr_address + csr_misa * 2 ^ 3)

  abbrev checked : Flags
  checked = (checkpoint_ext_check host_misa m csr_address mode_address no_flags).0

  rvv_iff :
      (checked.rvv_could_restore ≡ 1)
      ↔ ((bit 21 misa ≡ 1) × (bit 21 host_misa ≡ 1) × (state_field 9 mstatus ≢ 0))
  unfolding checkpoint_ext_check
  rvv_iff = ground (
    arith,
    bit_and-bit 21 misa,
    bit_and-bit 21 host_misa,
    bit_and-bit 9 mstatus,
    bit_and-bit 10 mstatus,
    bit_and-pair 9 mstatus,
  )

  rvf_iff : (checked.rvf_could_restore ≡ 1) ↔ (
      ((bit 3 misa ≡ 1) ⊎ (bit 5 misa ≡ 1))
      × ((bit 3 host_misa ≡ 1) ⊎ (bit 5 host_misa ≡ 1))
      × (state_field 13 mstatus ≢ 0))
  unfolding checkpoint_ext_check
  rvf_iff = ground (
    arith,
    df_bits misa,
    df_bits host_misa,
    bit_and-bit 13 mstatus,
    bit_and-bit 14 mstatus,
    bit_and-pair 13 mstatus,
  )

  rvh_iff :
      (checked.rvh_could_restore ≡ 1)
      ↔ ((bit 7 misa ≡ 1) × (bit 7 host_misa ≡ 1) × (bit 39 mstatus ≡ 1))
  unfolding checkpoint_ext_check
  rvh_iff = ground (arith, bit_and-bit 7 misa, bit_and-bit 7 host_misa, bit_and-bit 39 mstatus)

  jump_iff : (checked.should_jump_to_mepc ≡ 1) ↔ (load64 m mode_address % 2 ^ 53 ≡ 3)
  unfolding checkpoint_ext_check
  jump_iff = ground arith

  -- In machine mode the flag is set.
  pub set_by_mode : load64 m mode_address % 2 ^ 53 ≡ 3 → checked.should_jump_to_mepc ≢ 0
  set_by_mode machine = ground (arith, jump_iff)

  -- In any other mode the flag stays at zero.
  pub stays_in_mode : load64 m mode_address % 2 ^ 53 ≢ 3 → checked.should_jump_to_mepc ≡ 0
  unfolding checkpoint_ext_check
  stays_in_mode other = ground arith

  -- The vector registers are restored exactly when both the checkpoint and the host have V and
  -- the field VS of the saved `mstatus` is not off, the float registers exactly when both have F
  -- or D and the field FS is not off, and the hypervisor CSRs exactly when both have H and the
  -- saved `mstatus` has MPV. A core resumes by a jump exactly when the low 53 bits of the saved
  -- mode are 3, machine mode.
  pub checkpoint_ext_check_lem :
      ((checked.rvv_could_restore ≡ 1)
        ↔ ((bit 21 misa ≡ 1) × (bit 21 host_misa ≡ 1) × (state_field 9 mstatus ≢ 0)))
      × ((checked.rvf_could_restore ≡ 1) ↔ (
          ((bit 3 misa ≡ 1) ⊎ (bit 5 misa ≡ 1))
          × ((bit 3 host_misa ≡ 1) ⊎ (bit 5 host_misa ≡ 1))
          × (state_field 13 mstatus ≢ 0)))
      × ((checked.rvh_could_restore ≡ 1)
          ↔ ((bit 7 misa ≡ 1) × (bit 7 host_misa ≡ 1) × (bit 39 mstatus ≡ 1)))
      × ((checked.should_jump_to_mepc ≡ 1) ↔ (load64 m mode_address % 2 ^ 53 ≡ 3))
  checkpoint_ext_check_lem = (rvv_iff, rvf_iff, rvh_iff, jump_iff)
