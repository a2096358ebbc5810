-- ===== src/Jal/Reach.antt =====
-- Where the `jal` word of a slot jumps to, and when the range check lets it pass.
use lib_checkpoint.Common.{ℕ, ◌+◌, ◌-◌, ◌*◌, ◌/◌, ◌%◌, ◌^◌, ◌≤◌, ◌<◌, ◌≡◌, ◌⊎◌, true, arith}
use lib_checkpoint.Common.Int.{signed32}
use lib_checkpoint.Jal.{
  generate_jal, is_valid_imm, jal_distance, jal_word, is_jump, offset_bits, jump_target,
}

-- The fields of the word that `generate_jal` packs.
generate_jal-is_jump : (imm : ℕ) → is_jump (generate_jal imm 0) ≡ true
unfolding generate_jal
generate_jal-is_jump imm = ground arith

generate_jal-offset : (imm : ℕ) → imm < 2 ^ 20 → offset_bits (generate_jal imm 0) ≡ imm * 2
unfolding generate_jal
generate_jal-offset imm h = omega arith

-- The distance that the jump has to cover, forwards round the 64-bit address space.
abbrev pub displacement : ℕ → ℕ → ℕ
displacement pc target_pc = (target_pc + 2 ^ 64 - pc) % 2 ^ 64

-- The targets that a `jal` can reach: 2^20 bytes back, or fewer than 2^20 bytes on.
abbrev pub IsNear : ℕ → ℕ → Type 0
IsNear pc target_pc =
    (displacement pc target_pc < 2 ^ 20) ⊎ (2 ^ 64 - 2 ^ 20 ≤ displacement pc target_pc)

pub jal_word-lt : (pc target_pc : ℕ) → jal_word pc target_pc < 2 ^ 32
unfolding jal_word
jal_word-lt pc target_pc = omega arith

jal_word-offset :
    (pc target_pc : ℕ)
    → offset_bits (jal_word pc target_pc) ≡ jal_distance pc target_pc / 2 % 2 ^ 20 * 2
unfolding jal_word
jal_word-offset pc target_pc = generate_jal-offset _ (omega arith)

jal_word-is_jump : (pc target_pc : ℕ) → is_jump (jal_word pc target_pc) ≡ true
unfolding jal_word
jal_word-is_jump pc target_pc = generate_jal-is_jump (jal_distance pc target_pc / 2 % 2 ^ 20)

-- For every 64-bit target in reach of a `jal` whose distance is even, the range check passes, and
-- the word is a jump that links no register and goes to the target.
pub jal_word_reaches :
    (pc target_pc : ℕ)
    → pc < 2 ^ 64
    → target_pc < 2 ^ 64
    → displacement pc target_pc % 2 ≡ 0
    → IsNear pc target_pc
    → (is_valid_imm (signed32 (jal_distance pc target_pc)) ≡ true)
      × (is_jump (jal_word pc target_pc) ≡ true)
      × (jump_target pc (jal_word pc target_pc) ≡ target_pc)
unfolding is_valid_imm jal_distance
jal_word_reaches pc target_pc hp ht even near =
    (valid near, jal_word-is_jump pc target_pc, lands near)
  where
    valid : IsNear pc target_pc → is_valid_imm (signed32 (jal_distance pc target_pc)) ≡ true
    valid near = ground arith

    lands : IsNear pc target_pc → jump_target pc (jal_word pc target_pc) ≡ target_pc
    lands near = ground (arith, jal_word-offset pc target_pc)

-- The range check looks at the low half of the distance alone: a 64-bit target that lies a
-- positive multiple of `2 ^ 32` bytes beyond one up to `2 ^ 20` ahead, at an even distance,
-- passes it, and the jump lands that much too low.
pub jal_word_misses :
    (pc near k : ℕ)
    → 0 < k
    → near < 2 ^ 20
    → near % 2 ≡ 0
    → pc + near + k * 2 ^ 32 < 2 ^ 64
    → (is_valid_imm (signed32 (jal_distance pc (pc + near + k * 2 ^ 32))) ≡ true)
      × (jump_target pc (jal_word pc (pc + near + k * 2 ^ 32)) ≡ pc + near)
unfolding is_valid_imm jal_distance
jal_word_misses pc near k hk hn even fits =
    (ground arith, ground (arith, jal_word-offset pc (pc + near + k * 2 ^ 32)))
