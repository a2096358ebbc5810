-- ===== src/Display/Tests.antt =====
-- The display of single CSRs.
use lib_checkpoint.Common.{◌≡◌, refl, arith, none, some, [], ◌∷◌}
use lib_checkpoint.Console.{print, print_named}
use lib_checkpoint.Display.{find_reg, regs, display_csr}
use lib_checkpoint.Display.Names.{display_csr_null}

display_test :
    (display_csr 0x300 5
      ≡ print_named "csr id %x name: %s value %lx\n" 0x300 (some "mstatus") 5 ∷ [])
    × (display_csr 0x301 0 ≡ [])
    × (display_csr 7 5 ≡ print "csr id %x value %lx\n" (7 ∷ 5 ∷ []) ∷ [])
unfolding display_csr regs find_reg
display_test = (refl, refl, refl)

display_csr_null_example :
    display_csr 0 5 ≡ print_named "csr id %x name: %s value %lx\n" 0 none 5 ∷ []
display_csr_null_example = display_csr_null 5 (λ e. omega arith)
