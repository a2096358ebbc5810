-- ===== src/Encoding/Insns/Tests.antt =====
-- The patterns of two instructions.
use lib_checkpoint.Common.{ℕ, ◌≡◌, refl, true, false}
use lib_checkpoint.Encoding.Insns.Table.{matches}

-- `jal x0, 2048`
abbrev jal : ℕ
jal = 0x0010006f

matches_test :
    (matches jal ("jal", 0x6f, 0x7f) ≡ true) × (matches jal ("jalr", 0x67, 0x707f) ≡ false)
matches_test = (refl, refl)
