-- ===== src/Encoding/Fields/Values.antt =====
-- The values of the fields fit them, so that include/bits.h puts them in and gets them back.
use lib_checkpoint.Common.{
  ℕ, zero, suc, ◌+◌, ◌*◌, ◌^◌, ◌≤◌, ◌<◌, ◌≡◌, String, Bool, true, ◌&&◌, refl, arith, ap, sym, ◌∙◌,
  List, [], ◌∷◌, some, get_elem?, bit_and, ◌==◌, ltb, leb,
}
use mathlib.Core.Option.{some-injective}
use lib_checkpoint.Bits.{complement, extract_field, insert_field}
use lib_checkpoint.Bits.Fields.{mask, field_roundtrip}
use lib_checkpoint.Encoding.{mstatus_mpp}
use lib_checkpoint.Encoding.Csrs.{CsrTable}
use lib_checkpoint.Encoding.Fields.{
  dcsr_causes, mcontrol_type, mcontrol_types, mcontrol_actions, mcontrol_matches, privileges,
  satp_modes,
}

-- A field by its mask, with the place and the width of it, and the values that encoding.h names.
pub record Choice : Type 0 where
  pub field : ℕ
  pub place : ℕ
  pub width : ℕ
  pub values : CsrTable

abbrev pub choices : List Choice
choices =
    record { field = 7 * 2 ^ 6; place = 6; width = 3; values = dcsr_causes }
    ∷ record { field = mcontrol_type 64; place = 60; width = 4; values = mcontrol_types }
    ∷ record { field = 0x3f * 2 ^ 12; place = 12; width = 6; values = mcontrol_actions }
    ∷ record { field = 0xf * 2 ^ 7; place = 7; width = 4; values = mcontrol_matches }
    ∷ record { field = mstatus_mpp; place = 11; width = 2; values = privileges }
    ∷ record { field = 0xF000000000000000; place = 60; width = 4; values = satp_modes }
    ∷ []

all_below : ℕ → CsrTable → Bool
all_below bound [] = true
all_below bound ((k, v) ∷ t) = ltb v bound && all_below bound t

pub fits : Choice → Bool
fits c =
    (c.field == mask c.place c.width)
    && ltb 0 c.width
    && leb (c.place + c.width) 64
    && all_below (2 ^ c.width) c.values

all_fit : List Choice → Bool
all_fit [] = true
all_fit (c ∷ cs) = fits c && all_fit cs

all_fit-choices : all_fit choices ≡ true
unfolding all_fit fits all_below
all_fit-choices = refl

all_fit_sound :
    (cs : List Choice) (r : ℕ) (c : Choice)
    → all_fit cs ≡ true
    → get_elem? cs r ≡ some c
    → fits c ≡ true
unfolding all_fit
all_fit_sound [] r c ok h = ground arith
all_fit_sound (d ∷ cs) zero c ok h = ap fits (sym (some-injective d c h)) ∙ ground arith
all_fit_sound (d ∷ cs) (suc r) c ok h = ground (arith, all_fit_sound cs r c)

all_below_sound :
    (bound : ℕ) (t : CsrTable) (j : ℕ) (name : String) (v : ℕ)
    → all_below bound t ≡ true
    → get_elem? t j ≡ some (name, v)
    → v < bound
unfolding all_below
all_below_sound bound [] j name v ok h = ground arith
all_below_sound bound ((k, u) ∷ t) zero name v ok h = ground arith
all_below_sound bound ((k, u) ∷ t) (suc j) name v ok h =
    ground (arith, all_below_sound bound t j name v)

fits_sound :
    (c : Choice)
    → fits c ≡ true
    → (c.field ≡ mask c.place c.width)
      × (0 < c.width)
      × (c.place + c.width ≤ 64)
      × (all_below (2 ^ c.width) c.values ≡ true)
unfolding fits
fits_sound c ok = (ground arith, ground arith, ground arith, ground arith)

-- A value that encoding.h names for a field, put into the field of any word of 64 bits, is what is
-- read from the field afterwards, and the other bits of the word stay.
pub values_roundtrip :
    (r j : ℕ) (c : Choice) (name : String) (v val : ℕ)
    → get_elem? choices r ≡ some c
    → get_elem? c.values j ≡ some (name, v)
    → val < 2 ^ 64
    → (extract_field (insert_field val c.field v) c.field ≡ v)
      × (bit_and (insert_field val c.field v) (complement c.field)
          ≡ bit_and val (complement c.field))
values_roundtrip r j c name v val at_r at_j bounded =
    let ok : fits c ≡ true = all_fit_sound choices r c all_fit-choices at_r in
    let (same, wide, inside, small) = fits_sound c ok in
    let (reads, keeps, _) =
      field_roundtrip c.place c.width wide inside val v bounded
        (all_below_sound (2 ^ c.width) c.values j name v small at_j) in
    rw same (reads, keeps)
