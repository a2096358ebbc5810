-- ===== src/Jal/Decode.antt =====
-- The word of a slot by the patterns of include/encoding.h.
use lib_checkpoint.Common.{
  Option, ℕ, ◌/◌, ◌%◌, ◌^◌, ◌≡◌, ◌≢◌, ◌∙◌, refl, sym, ap, arith, String, true, false, some,
  get_elem?, ==_iff, ==-of-ne, dec_lt, bit_and,
}
use lib_checkpoint.Common.Bits.{bit_and_step, bit_and-three}
use lib_checkpoint.Encoding.{match_jal, mask_jal}
use lib_checkpoint.Encoding.Insns.{wide_insns}
use lib_checkpoint.Encoding.Insns.Table.{matches}
use lib_checkpoint.Encoding.Insns.Decoding.{decodes_once}
use lib_checkpoint.Jal.{inst, generate_jal, jal_distance, jal_word}

generate_jal-low : (imm : ℕ) → generate_jal imm 0 % 2 ^ 7 ≡ match_jal
unfolding generate_jal inst
generate_jal-low imm = omega arith

-- the mask of `jal` looks at the lowest seven bits
bit_and-mask_jal : (x : ℕ) → bit_and x mask_jal ≡ x % 2 ^ 7
bit_and-mask_jal x = omega (
  arith,
  bit_and_step x 127,
  bit_and_step (x / 2) 63,
  bit_and_step (x / 2 / 2) 31,
  bit_and_step (x / 2 / 2 / 2) 15,
  bit_and_step (x / 2 / 2 / 2 / 2) 7,
  bit_and-three (x / 2 / 2 / 2 / 2 / 2),
)

jal_word-match : (pc target_pc : ℕ) → bit_and (jal_word pc target_pc) mask_jal ≡ match_jal
unfolding jal_word
jal_word-match pc target_pc =
    bit_and-mask_jal _ ∙ generate_jal-low (jal_distance pc target_pc / 2 % 2 ^ 20)

same_name :
    (entry : Option (String × ℕ × ℕ)) (name name' : String) (m k m' k' : ℕ)
    → entry ≡ some (name, m, k)
    → entry ≡ some (name', m', k')
    → name ≡ name'
same_name entry name name' m k m' k' here here' = ground arith

jal_word-matches :
    (pc target_pc : ℕ) → matches (jal_word pc target_pc) ("jal", match_jal, mask_jal) ≡ true
jal_word-matches pc target_pc = (==_iff _ _).1 (jal_word-match pc target_pc)

-- Whatever the two addresses are, the word that is written into a slot is a `jal` by the patterns of
-- encoding.h, and no other of its instructions of 32 bits.
pub jal_word_decodes :
    (pc target_pc j : ℕ) (name : String) (m k : ℕ)
    → get_elem? wide_insns j ≡ some (name, m, k)
    → name ≢ "jal"
    → (matches (jal_word pc target_pc) ("jal", match_jal, mask_jal) ≡ true)
      × (matches (jal_word pc target_pc) (name, m, k) ≡ false)
jal_word_decodes pc target_pc j name m k at_j other = (jal_word-matches pc target_pc, no_other)
  where
    not_here : j ≢ 7
    not_here here = other (
        same_name (get_elem? wide_insns 7) name "jal" m k match_jal mask_jal
          (ap (get_elem? wide_insns) (sym here) ∙ at_j) refl)

    clash : matches (jal_word pc target_pc) ("jal", match_jal, mask_jal) ≢ false
    clash e = ground (arith, jal_word-matches pc target_pc)

    no_other : matches (jal_word pc target_pc) (name, m, k) ≡ false
    no_other = elim (dec_lt 7 j) [
      | yes behind ↦
          decodes_once (jal_word pc target_pc) 7 j "jal" name match_jal mask_jal m k behind refl
            at_j (jal_word-matches pc target_pc)
      | no early ↦ ==-of-ne (bit_and (jal_word pc target_pc) k) m (λ e. clash (
          decodes_once (jal_word pc target_pc) j 7 name "jal" m k match_jal mask_jal
            (omega (arith, early, not_here)) at_j refl ((==_iff _ _).1 e)))
    ]
