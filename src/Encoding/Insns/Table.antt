-- ===== src/Encoding/Insns/Table.antt =====
-- A table of instructions: the name, and the bits that a word has at the places of a mask.
use lib_checkpoint.Common.{ℕ, String, List, Bool, ◌==◌, bit_and}

abbrev pub InsnTable : Type 0
InsnTable = List (String × ℕ × ℕ)

-- The word is that instruction: `(insn & MASK) == MATCH`.
abbrev pub matches : ℕ → String × ℕ × ℕ → Bool
matches word (name, match_bits, mask) = bit_and word mask == match_bits
