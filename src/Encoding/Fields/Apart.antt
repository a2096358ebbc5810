-- ===== src/Encoding/Fields/Apart.antt =====
-- The fields of a register share no bit, and `sstatus` is a view of `mstatus`.
use lib_checkpoint.Common.{
  ℕ, zero, suc, ◌<◌, ◌≡◌, String, Bool, true, ◌&&◌, refl, arith, List, [], ◌∷◌, some, get_elem?,
  bit_and, ◌==◌,
}
use lib_checkpoint.Encoding.Csrs.{CsrTable}
use lib_checkpoint.Encoding.Fields.{registers}

-- `v` shares no bit with an entry of the table.
clear_of : ℕ → CsrTable → Bool
clear_of v [] = true
clear_of v ((k, w) ∷ t) = (bit_and v w == 0) && clear_of v t

apart : CsrTable → Bool
apart [] = true
apart ((j, v) ∷ t) = clear_of v t && apart t

all_apart : List CsrTable → Bool
all_apart [] = true
all_apart (t ∷ ts) = apart t && all_apart ts

all_apart-registers : all_apart registers ≡ true
unfolding all_apart apart clear_of
all_apart-registers = refl

clear_of_sound :
    (v : ℕ) (t : CsrTable) (j : ℕ) (name : String) (w : ℕ)
    → clear_of v t ≡ true
    → get_elem? t j ≡ some (name, w)
    → bit_and v w ≡ 0
unfolding clear_of
clear_of_sound v [] j name w ok h = ground arith
clear_of_sound v ((k, u) ∷ t) zero name w ok h = ground arith
clear_of_sound v ((k, u) ∷ t) (suc j) name w ok h = ground (arith, clear_of_sound v t j name w)

apart_sound :
    (t : CsrTable) (i j : ℕ) (m n : String) (v w : ℕ)
    → apart t ≡ true
    → i < j
    → get_elem? t i ≡ some (m, v)
    → get_elem? t j ≡ some (n, w)
    → bit_and v w ≡ 0
unfolding apart
apart_sound [] i j m n v w ok lt hi hj = ground arith
apart_sound ((k, u) ∷ t) i zero m n v w ok lt hi hj = absurd (omega arith)
apart_sound ((k, u) ∷ t) zero (suc j) m n v w ok lt hi hj = ground (arith, clear_of_sound u t j n w)
apart_sound ((k, u) ∷ t) (suc i) (suc j) m n v w ok lt hi hj =
    ground (arith, apart_sound t i j m n v w)

all_apart_sound :
    (ts : List CsrTable) (r : ℕ) (t : CsrTable)
    → all_apart ts ≡ true
    → get_elem? ts r ≡ some t
    → apart t ≡ true
unfolding all_apart
all_apart_sound [] r t ok h = ground arith
all_apart_sound (u ∷ ts) zero t ok h = ground arith
all_apart_sound (u ∷ ts) (suc r) t ok h = ground (arith, all_apart_sound ts r t)

-- Two fields of one register of encoding.h share no bit.
pub fields_apart :
    (r i j : ℕ) (t : CsrTable) (m n : String) (v w : ℕ)
    → get_elem? registers r ≡ some t
    → i < j
    → get_elem? t i ≡ some (m, v)
    → get_elem? t j ≡ some (n, w)
    → bit_and v w ≡ 0
fields_apart r i j t m n v w at_r =
    apart_sound t i j m n v w (all_apart_sound registers r t all_apart-registers at_r)
