-- ===== src/Trap/Tests.antt =====
-- A handler at an address that is not aligned, on a hart with interrupts enabled.
use lib_checkpoint.Common.{◌/◌, ◌%◌, ◌≡◌, refl, arith, [], ◌∷◌, bit_and}
use lib_checkpoint.Encoding.{csr_mstatus}
use lib_checkpoint.Hart.{Machine}
use lib_checkpoint.Hart.Sample.{plain_csrs, blank}
use lib_checkpoint.Trap.{csr_mtvec, not_mie, enable_gcpt_trap, disable_gcpt_trap, gcpt_trap_handler}
use lib_checkpoint.Console.{mt_print, signal, gcpt_get_trap}
use lib_checkpoint.Trap.Window.{trap_window}

abbrev hart : Machine plain_csrs
hart = record (blank (λ _. 0)) { csr = λ _. 0xa }

abbrev trapping : Machine plain_csrs
trapping = enable_gcpt_trap 0x80000203 hart

trap_test :
    (trapping.csr csr_mtvec ≡ 0x80000200) × ((disable_gcpt_trap trapping).csr csr_mstatus ≡ 0x2)
unfolding enable_gcpt_trap disable_gcpt_trap
trap_test = (refl, refl)

-- The handler prints what the trap left in four CSRs, and then signals.
handler_test :
    (gcpt_trap_handler hart).log
    ≡ mt_print "mepc:    0x%lx\n" (0xa ∷ [])
      ∷ mt_print "mtval    0x%lx\n" (0xa ∷ [])
      ∷ mt_print "mcause   0x%lx\n" (0xa ∷ [])
      ∷ mt_print "mstatus  0x%lx\n" (0xa ∷ [])
      ∷ mt_print "Get gcpt trap\n" []
      ∷ signal gcpt_get_trap
      ∷ []
unfolding gcpt_trap_handler
handler_test = refl

trap_window_example :
    (trapping.csr csr_mtvec ≡ bit_and 0x80000203 0xFFFFFFFFFFFFFFFC)
    × (trapping.csr csr_mstatus / 8 % 2 ≡ 1)
    × ((disable_gcpt_trap trapping).csr csr_mtvec ≡ 0)
    × ((disable_gcpt_trap trapping).csr csr_mstatus ≡ bit_and 0xa not_mie)
    × ((disable_gcpt_trap trapping).csr csr_mstatus / 8 % 2 ≡ 0)
trap_window_example = trap_window hart 0x80000203 tt tt tt tt (λ e. omega arith)
