-- ===== src/Encoding/Declared/Numbered.antt =====
-- The declared CSRs are those that have a number, and each has its own.
use text.Mathlib.Text.{◌==◌ as str_eq}
use text.Mathlib.TextEquality.{eq_iff}
use lib_checkpoint.Common.{
  ℕ, zero, suc, ◌<◌, ◌≡◌, String, Bool, true, false, ◌&&◌, refl, arith, List, [], ◌∷◌, some,
  get_elem?, ltb,
}
use lib_checkpoint.Encoding.Csrs.{CsrTable, csr_numbers}
use lib_checkpoint.Encoding.Declared.{declared_csrs}

-- Name by name, the list has the names of the table, whose numbers are below a bound.
unfoldable pub numbered : ℕ → List String → CsrTable → Bool
numbered bound [] [] = true
numbered bound [] (e ∷ t) = false
numbered bound (n ∷ ns) [] = false
numbered bound (n ∷ ns) ((k, a) ∷ t) = str_eq n k && ltb a bound && numbered bound ns t

numbered-declared_csrs : numbered 4096 declared_csrs csr_numbers ≡ true
unfolding numbered
numbered-declared_csrs = refl

pub numbered_sound :
    (bound : ℕ) (ns : List String) (t : CsrTable) (i : ℕ) (name : String)
    → numbered bound ns t ≡ true
    → get_elem? ns i ≡ some name
    → (a : ℕ) × (get_elem? t i ≡ some (name, a)) × (a < bound)
unfolding numbered
numbered_sound bound [] t i name ok at_i = ground arith
numbered_sound bound (n ∷ ns) [] i name ok at_i = ground arith
numbered_sound bound (n ∷ ns) ((k, a) ∷ t) zero name ok at_i =
    (a, ground (arith, eq_iff n k), ground arith)
numbered_sound bound (n ∷ ns) ((k, a) ∷ t) (suc i) name ok at_i =
    numbered_sound bound ns t i name (ground arith) at_i

-- Every CSR that encoding.h declares has a number of twelve bits, at the same place of the list of
-- the numbers.
pub declared_numbered :
    (i : ℕ) (name : String)
    → get_elem? declared_csrs i ≡ some name
    → (a : ℕ) × (get_elem? csr_numbers i ≡ some (name, a)) × (a < 4096)
declared_numbered i name =
    numbered_sound 4096 declared_csrs csr_numbers i name numbered-declared_csrs
