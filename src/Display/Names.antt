-- ===== src/Display/Names.antt =====
-- Which names the display of the CSRs prints.
use lib_checkpoint.Common.{
  ℕ, ◌≡◌, ◌≢◌, ◌⊎◌, Bool, true, ◌&&◌, not, none, String, List, [], ◌∷◌, refl, arith, ◌==◌,
}
use lib_checkpoint.Console.{print, print_named}
use lib_checkpoint.Display.{named_regs, find_reg, regs, display_csr}

-- Every entry of the table has its own index for id, and not zero.
well_indexed : List (ℕ × ℕ × String) → Bool
well_indexed [] = true
well_indexed ((j, id, name) ∷ t) = j == id && not (j == 0) && well_indexed t

well_indexed_table : well_indexed named_regs ≡ true
unfolding well_indexed
well_indexed_table = refl

find_reg_lem :
    (i : ℕ) (t : List (ℕ × ℕ × String))
    → well_indexed t ≡ true
    → ((find_reg i t).name ≡ none × ((find_reg i t).id ≡ 0))
      ⊎ ((i ≢ 0) × ((find_reg i t).id ≡ i) × ((find_reg i t).name ≢ none))
unfolding find_reg well_indexed
find_reg_lem i [] ok = ground arith
find_reg_lem i ((j, id, name) ∷ t) ok = ground (arith, find_reg_lem i t)

-- The display skips a CSR whose image is zero. Of any other but number 0 it prints the name that
-- the table gives it, never a null pointer, or no name.
pub display_csr_named :
    (i val : ℕ)
    → i ≢ 0
    → val ≢ 0
    → ((regs i).name ≡ none
        × (display_csr i val ≡ print "csr id %x value %lx\n" (i ∷ val ∷ []) ∷ []))
      ⊎ ((regs i).name ≢ none
          × (display_csr i val
              ≡ print_named "csr id %x name: %s value %lx\n" i (regs i).name val ∷ []))
unfolding display_csr regs
display_csr_named i val hi hv = ground (arith, find_reg_lem i named_regs well_indexed_table)

-- CSR 0 has no entry, but the zero id of the empty entry equals its number: whenever its image is
-- not zero the display hands `%s` a null pointer.
pub display_csr_null :
    (val : ℕ)
    → val ≢ 0
    → display_csr 0 val ≡ print_named "csr id %x name: %s value %lx\n" 0 none val ∷ []
unfolding display_csr regs
display_csr_null val h = ground arith
