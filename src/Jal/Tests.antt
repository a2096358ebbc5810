-- ===== src/Jal/Tests.antt =====
-- Jumps from the slot of core 0 of a table at 0x80000100.
use text.Mathlib.TextEquality.{eq_iff}
use lib_checkpoint.Common.{◌+◌, ◌*◌, ◌^◌, ◌≡◌, inr, refl, arith, true, false}
use lib_checkpoint.Common.Int.{signed32}
use lib_checkpoint.Jal.{
  nop, inst, generate_jal, is_valid_imm, jal_distance, jal_word, is_jump, jump_target,
}
use lib_checkpoint.Jal.Reach.{jal_word_reaches, jal_word_misses}
use lib_checkpoint.Encoding.{match_jal, mask_jal, match_addi, mask_addi}
use lib_checkpoint.Encoding.Insns.Table.{matches}
use lib_checkpoint.Jal.Decode.{jal_word_decodes}

-- `jal x0, -4` and `jal x0, 2048`, as an assembler encodes them; the placeholder is no jump.
encoding_test :
    (generate_jal 0xFFFFE 0 ≡ 0xffdff06f)
    × (generate_jal 0x400 0 ≡ 0x0010006f)
    × (is_jump nop ≡ false)
unfolding generate_jal inst
encoding_test = (refl, refl, refl)

jal_word_reaches_example :
    (is_valid_imm (signed32 (jal_distance 0x8000010c 0x80000000)) ≡ true)
    × (is_jump (jal_word 0x8000010c 0x80000000) ≡ true)
    × (jump_target 0x8000010c (jal_word 0x8000010c 0x80000000) ≡ 0x80000000)
jal_word_reaches_example =
    jal_word_reaches 0x8000010c 0x80000000 (omega arith) (omega arith) refl (inr (omega arith))

-- A kernel address that is 2^32 bytes and 16 beyond the slot is taken for one 16 beyond it.
jal_word_misses_example :
    (is_valid_imm (signed32 (jal_distance 0x8000010c (0x8000010c + 16 + 1 * 2 ^ 32))) ≡ true)
    × (jump_target 0x8000010c (jal_word 0x8000010c (0x8000010c + 16 + 1 * 2 ^ 32))
        ≡ 0x8000010c + 16)
jal_word_misses_example =
    jal_word_misses 0x8000010c 16 1 (omega arith) (omega arith) refl (omega arith)

jal_word_decodes_example :
    (matches (jal_word 0x8000010c 0x80000000) ("jal", match_jal, mask_jal) ≡ true)
    × (matches (jal_word 0x8000010c 0x80000000) ("jalr", 0x67, 0x707f) ≡ false)
jal_word_decodes_example =
    jal_word_decodes 0x8000010c 0x80000000 6 "jalr" 0x67 0x707f refl
      (λ e. ground (arith, (eq_iff "jalr" "jal").1 e))

-- The placeholder of a slot is an `addi`.
nop_test : matches nop ("addi", match_addi, mask_addi) ≡ true
nop_test = refl
