-- ===== src/Encoding/Insns/Decoding.antt =====
-- No word is two of the instructions of 32 bits.
use lib_checkpoint.Common.{
  ℕ, zero, suc, ◌<◌, ◌≡◌, ◌≢◌, ◌∙◌, String, Bool, true, false, ◌&&◌, not, refl, sym, ap, arith, [],
  ◌∷◌, some, get_elem?, ◌==◌, ==_iff, ==-of-ne, bit_and,
}
use lib_checkpoint.Common.Bits.{bit_and_comm, bit_and_assoc}
use lib_checkpoint.Encoding.Insns.{wide_insns}
use lib_checkpoint.Encoding.Insns.Table.{InsnTable, matches}

-- The patterns differ at a place that both masks look at.
abbrev differs : ℕ → ℕ → ℕ → ℕ → Bool
differs match_a mask_a match_b mask_b = not (bit_and match_a mask_b == bit_and match_b mask_a)

all_differ : ℕ → ℕ → InsnTable → Bool
all_differ m k [] = true
all_differ m k ((name, match_bits, mask) ∷ t) = differs m k match_bits mask && all_differ m k t

unambiguous : InsnTable → Bool
unambiguous [] = true
unambiguous ((name, match_bits, mask) ∷ t) = all_differ match_bits mask t && unambiguous t

unambiguous-wide_insns : unambiguous wide_insns ≡ true
unfolding unambiguous all_differ
unambiguous-wide_insns = refl

-- A word of two instructions shows both patterns where both masks look.
agree :
    (word m k m' k' : ℕ) → bit_and word k ≡ m → bit_and word k' ≡ m' → bit_and m k' ≡ bit_and m' k
agree word m k m' k' first second =
    ap (λ (x : ℕ). bit_and x k') (sym first)
    ∙ bit_and_assoc word k k'
    ∙ ap (bit_and word) (bit_and_comm k k')
    ∙ sym (bit_and_assoc word k' k)
    ∙ ap (λ (x : ℕ). bit_and x k) second

all_differ_sound :
    (word m k : ℕ) (t : InsnTable) (j : ℕ) (name : String) (m' k' : ℕ)
    → all_differ m k t ≡ true
    → get_elem? t j ≡ some (name, m', k')
    → bit_and word k ≡ m
    → bit_and word k' ≢ m'
unfolding all_differ
all_differ_sound word m k [] j name m' k' ok at_j first = ground arith
all_differ_sound word m k ((n, a, b) ∷ t) zero name m' k' ok at_j first =
    λ second. ground (arith, agree word m k m' k' first second)
all_differ_sound word m k ((n, a, b) ∷ t) (suc j) name m' k' ok at_j first =
    all_differ_sound word m k t j name m' k' (ground arith) at_j first

unambiguous_sound :
    (word : ℕ) (t : InsnTable) (i j : ℕ) (name name' : String) (m k m' k' : ℕ)
    → unambiguous t ≡ true
    → i < j
    → get_elem? t i ≡ some (name, m, k)
    → get_elem? t j ≡ some (name', m', k')
    → bit_and word k ≡ m
    → bit_and word k' ≢ m'
unfolding unambiguous
unambiguous_sound word [] i j name name' m k m' k' ok lt at_i at_j first = ground arith
unambiguous_sound word (e ∷ t) i zero name name' m k m' k' ok lt at_i at_j first =
    absurd (omega arith)
unambiguous_sound word ((n, a, b) ∷ t) zero (suc j) name name' m k m' k' ok lt at_i at_j first =
    all_differ_sound word m k t j name' m' k' (ground arith) at_j first
unambiguous_sound word ((n, a, b) ∷ t) (suc i) (suc j) name name' m k m' k' ok lt at_i at_j first =
    unambiguous_sound word t i j name name' m k m' k' (ground arith) (omega arith) at_i at_j first

-- No word is at once two of the instructions of 32 bits that encoding.h knows.
pub decodes_once :
    (word i j : ℕ) (name name' : String) (m k m' k' : ℕ)
    → i < j
    → get_elem? wide_insns i ≡ some (name, m, k)
    → get_elem? wide_insns j ≡ some (name', m', k')
    → matches word (name, m, k) ≡ true
    → matches word (name', m', k') ≡ false
decodes_once word i j name name' m k m' k' lt at_i at_j first = ==-of-ne (bit_and word k') m' (
    unambiguous_sound word wide_insns i j name name' m k m' k' unambiguous-wide_insns lt at_i at_j
      ((==_iff (bit_and word k) m).0 first))
