-- ===== src/Extensions.antt =====
-- src/decode_restore.c, `checkpoint_ext_check`: which extensions a checkpoint restores on this hart.
-- The four `int *` arguments are the fields of `Flags`; the function returns them with what it
-- prints.
pub mod Criteria
mod Support
pub mod Tests
use lib_checkpoint.Common.{
  ℕ, ◌+◌, ◌*◌, ◌%◌, ◌^◌, Bool, ◌&&◌, ◌||◌, not, List, [], ◌∷◌, ◌++◌, bit_and, ◌==◌, if◌then◌else◌,
}
use lib_checkpoint.Encoding.{
  mstatus_mpp, mstatus_mpv, mstatus_vs_initial, mstatus_vs_clean, mstatus_vs_dirty,
  mstatus_fs_initial, mstatus_fs_clean, mstatus_fs_dirty, misa_v, misa_h, misa_df, csr_mstatus,
  csr_misa,
}
use lib_checkpoint.Memory.{Memory, load64}
use lib_checkpoint.Console.{Event, print}

pub record Flags : Type 0 where
  pub rvv_could_restore : ℕ
  pub rvh_could_restore : ℕ
  pub rvf_could_restore : ℕ
  pub should_jump_to_mepc : ℕ

-- The restorer passes variables that it initialised to zero.
abbrev pub no_flags : Flags
no_flags = record {
  rvv_could_restore = 0;
  rvh_could_restore = 0;
  rvf_could_restore = 0;
  should_jump_to_mepc = 0;
}

-- a C condition on `x & mask`
abbrev pub has : ℕ → ℕ → Bool
has x mask = not (bit_and x mask == 0)

-- `(x & state) == state`, for one of the states of a field of `mstatus`
abbrev pub holds : ℕ → ℕ → Bool
holds x state = bit_and x state == state

unfoldable pub check_mode : ℕ → Flags → Flags × List Event
check_mode mode f =
    if mode * 2 ^ 11 % 2 ^ 64 == mstatus_mpp
    then (record f { should_jump_to_mepc = 1 }, print "checkpoint mode is M %lx\n" (mode ∷ []) ∷ [])
    else (f, [])

unfoldable pub check_h : ℕ → ℕ → ℕ → Flags → Flags
check_h host_misa mstatus misa f =
    if has misa misa_h && has host_misa misa_h && has mstatus mstatus_mpv
    then record f { rvh_could_restore = 1 }
    else record f { rvh_could_restore = 0 }

unfoldable pub check_v : ℕ → ℕ → ℕ → Flags → Flags
check_v host_misa mstatus misa f =
    if has misa misa_v && has host_misa misa_v
    then if holds mstatus mstatus_vs_initial
        || holds mstatus mstatus_vs_clean
        || holds mstatus mstatus_vs_dirty
      then record f { rvv_could_restore = 1 }
      else record f { rvv_could_restore = 0 }
    else f

unfoldable pub check_f : ℕ → ℕ → ℕ → Flags → Flags
check_f host_misa mstatus misa f =
    if has misa misa_df && has host_misa misa_df
    then if holds mstatus mstatus_fs_initial
        || holds mstatus mstatus_fs_clean
        || holds mstatus mstatus_fs_dirty
      then record f { rvf_could_restore = 1 }
      else record f { rvf_could_restore = 0 }
    else f

-- `host_misa` is what `read_csr(misa)` gave.
unfoldable pub checkpoint_ext_check : ℕ → Memory → ℕ → ℕ → Flags → Flags × List Event
unfolding check_mode check_h check_v check_f
checkpoint_ext_check host_misa m csr_address mode_address f =
    let mstatus = load64 m (csr_address + csr_mstatus * 2 ^ 3) in
    let misa = load64 m (csr_address + csr_misa * 2 ^ 3) in
    let (f', printed) = check_mode (load64 m mode_address) f in
    (
      check_f host_misa mstatus misa
          (check_v host_misa mstatus misa (check_h host_misa mstatus misa f')),
      printed,
    )
