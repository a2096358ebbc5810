-- ===== src/CsrLists/Agree.antt =====
-- The tables of CSRs agree with one another.
use text.Mathlib.Text.{◌==◌ as str_eq}
use text.Mathlib.TextEquality.{eq_iff}
use lib_checkpoint.Common.{
  ℕ, zero, suc, ◌<◌, ◌≡◌, ◌≢◌, String, Bool, true, ◌&&◌, not, Option, none, some, [], ◌∷◌, ◌++◌,
  refl, arith, ◌==◌, ltb, if◌then◌else◌, get_elem?,
}
use lib_checkpoint.Encoding.Csrs.{CsrTable, csr_numbers}
use lib_checkpoint.CsrLists.{csrs, hcsrs}

abbrev pub number_of : String → CsrTable → Option ℕ
number_of k [] = none
number_of k ((j, v) ∷ t) = if str_eq j k then some v else number_of k t

abbrev agrees : ℕ → Option ℕ → Bool
agrees a none = true
agrees a (some b) = a == b

consistent : CsrTable → CsrTable → Bool
consistent big [] = true
consistent big ((j, v) ∷ t) = agrees v (number_of j big) && consistent big t

consistent-csrs : consistent csr_numbers (csrs ++ hcsrs) ≡ true
unfolding consistent
consistent-csrs = refl

consistent_sound :
    (big t : CsrTable) (name : String) (a b : ℕ)
    → consistent big t ≡ true
    → number_of name t ≡ some a
    → number_of name big ≡ some b
    → a ≡ b
unfolding consistent
consistent_sound big [] name a b ok ha hb = ground arith
consistent_sound big ((j, v) ∷ t) name a b ok ha hb =
    ground (arith, eq_iff j name, consistent_sound big t name a b)

-- A CSR that csr.h restores, with or without the hypervisor extension, and that encoding.h numbers
-- too has the same number in both.
pub csrs_agree :
    (name : String) (a b : ℕ)
    → number_of name (csrs ++ hcsrs) ≡ some a
    → number_of name csr_numbers ≡ some b
    → a ≡ b
csrs_agree name a b = consistent_sound csr_numbers (csrs ++ hcsrs) name a b consistent-csrs

-- `v` is the number of no entry of the table.
abbrev is_free : ℕ → CsrTable → Bool
is_free v [] = true
is_free v ((k, w) ∷ t) = not (v == w) && is_free v t

distinct : CsrTable → Bool
distinct [] = true
distinct ((j, v) ∷ t) = ltb v 4096 && is_free v t && distinct t

distinct-csrs : distinct (csrs ++ hcsrs) ≡ true
unfolding distinct
distinct-csrs = refl

is_free_sound :
    (v : ℕ) (t : CsrTable) (j : ℕ) (name : String) (w : ℕ)
    → is_free v t ≡ true
    → get_elem? t j ≡ some (name, w)
    → v ≢ w
is_free_sound v [] j name w ok h = ground arith
is_free_sound v ((k, u) ∷ t) zero name w ok h = ground arith
is_free_sound v ((k, u) ∷ t) (suc j) name w ok h = ground (arith, is_free_sound v t j name w)

distinct_sound :
    (t : CsrTable) (i j : ℕ) (m n : String) (v w : ℕ)
    → distinct t ≡ true
    → i < j
    → get_elem? t i ≡ some (m, v)
    → get_elem? t j ≡ some (n, w)
    → (v < 4096) × (v ≢ w)
unfolding distinct
distinct_sound [] i j m n v w ok lt hi hj = ground arith
distinct_sound ((k, u) ∷ t) zero zero m n v w ok lt hi hj = absurd (omega arith)
distinct_sound ((k, u) ∷ t) zero (suc j) m n v w ok lt hi hj =
    ground (arith, is_free_sound u t j n w)
distinct_sound ((k, u) ∷ t) (suc i) zero m n v w ok lt hi hj = absurd (omega arith)
distinct_sound ((k, u) ∷ t) (suc i) (suc j) m n v w ok lt hi hj =
    ground (arith, distinct_sound t i j m n v w)

-- No CSR is in the two lists of csr.h twice, and the double word of each lies in the 4096 that the
-- checkpoint holds.
pub csrs_distinct :
    (i j : ℕ) (m n : String) (v w : ℕ)
    → i < j
    → get_elem? (csrs ++ hcsrs) i ≡ some (m, v)
    → get_elem? (csrs ++ hcsrs) j ≡ some (n, w)
    → (v < 4096) × (v ≢ w)
csrs_distinct i j m n v w = distinct_sound (csrs ++ hcsrs) i j m n v w distinct-csrs

distinct-csr_numbers : distinct csr_numbers ≡ true
unfolding distinct
distinct-csr_numbers = refl

-- No two CSRs that encoding.h numbers have the same number.
pub numbers_distinct :
    (i j : ℕ) (m n : String) (v w : ℕ)
    → i < j
    → get_elem? csr_numbers i ≡ some (m, v)
    → get_elem? csr_numbers j ≡ some (n, w)
    → (v < 4096) × (v ≢ w)
numbers_distinct i j m n v w = distinct_sound csr_numbers i j m n v w distinct-csr_numbers
