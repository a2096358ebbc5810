-- ===== src/Extensions/Support.antt =====
-- src/restore.S, `rvh_support_check` and `rvv_support_check`: nothing calls them, but they ask of the
-- hart what `checkpoint_ext_check` asks of it.
use lib_checkpoint.Common.{ℕ, ◌≡◌, ◌≢◌, arith}
use lib_checkpoint.Encoding.{csr_misa}
use lib_checkpoint.Hart.{CsrFile}
use lib_checkpoint.Memory.{Memory}
use lib_checkpoint.Registers.{rvh_support_check, rvv_support_check}
use lib_checkpoint.Extensions.{Flags, no_flags, checkpoint_ext_check}

module _ (F : CsrFile) (s : F.State) (m : Memory) (csr_address mode_address : ℕ) where
  abbrev checked : Flags
  checked = (checkpoint_ext_check (F.read s csr_misa) m csr_address mode_address no_flags).0

  -- What is restored of H and V is what the hart supports by these routines.
  pub restored_supported :
      (checked.rvh_could_restore ≡ 1 → rvh_support_check F s ≢ 0)
      × (checked.rvv_could_restore ≡ 1 → rvv_support_check F s ≢ 0)
  unfolding checkpoint_ext_check rvh_support_check rvv_support_check
  restored_supported = (λ restored. ground arith, λ restored. ground arith)
