-- ===== src/Encoding/Insns/Patterns.antt =====
-- The declared instructions are those that have a pattern.
use text.Mathlib.Text.{◌==◌ as str_eq}
use text.Mathlib.TextEquality.{eq_iff}
use lib_checkpoint.Common.{
  ℕ, zero, suc, ◌<◌, ◌≡◌, ◌^◌, String, Bool, true, false, ◌&&◌, refl, arith, List, [], ◌∷◌, some,
  get_elem?, ltb, bit_and,
}
use lib_checkpoint.Encoding.Insns.{insns}
use lib_checkpoint.Encoding.Insns.Table.{InsnTable, matches}
use lib_checkpoint.Encoding.Insns.Declared.{declared_insns}

-- Name by name, the list has the names of the table, whose patterns are words.
described : List String → InsnTable → Bool
described [] [] = true
described [] (e ∷ t) = false
described (n ∷ ns) [] = false
described (n ∷ ns) ((k, m, mask) ∷ t) =
    str_eq n k && ltb m (2 ^ 32) && matches m (k, m, mask) && described ns t

described-declared_insns : described declared_insns insns ≡ true
unfolding described
described-declared_insns = refl

described_sound :
    (ns : List String) (t : InsnTable) (i : ℕ) (name : String)
    → described ns t ≡ true
    → get_elem? ns i ≡ some name
    → (m : ℕ) × (mask : ℕ) × (get_elem? t i ≡ some (name, m, mask))
      × (m < 2 ^ 32)
      × (bit_and m mask ≡ m)
unfolding described
described_sound [] t i name ok at_i = ground arith
described_sound (n ∷ ns) [] i name ok at_i = ground arith
described_sound (n ∷ ns) ((k, m, mask) ∷ t) zero name ok at_i =
    (m, mask, ground (arith, eq_iff n k), ground arith, ground arith)
described_sound (n ∷ ns) ((k, m, mask) ∷ t) (suc i) name ok at_i =
    described_sound ns t i name (ground arith) at_i

-- Every instruction that encoding.h declares has a pattern, at the same place of the table, that is
-- a 32-bit word of that instruction.
pub declared_described :
    (i : ℕ) (name : String)
    → get_elem? declared_insns i ≡ some name
    → (m : ℕ) × (mask : ℕ) × (get_elem? insns i ≡ some (name, m, mask))
      × (m < 2 ^ 32)
      × (bit_and m mask ≡ m)
declared_described i name = described_sound declared_insns insns i name described-declared_insns
