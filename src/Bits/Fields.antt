-- ===== src/Bits/Fields.antt =====
-- A field that is written reads back, and the bits outside it stay.
use lib_checkpoint.Common.{
  ℕ, ◌+◌, ◌-◌, ◌*◌, ◌/◌, ◌%◌, ◌^◌, ◌≤◌, ◌<◌, ◌≡◌, arith, refl, ap, sym, ◌∙◌, bit_and,
}
use native.Mathlib.Nat.{one-le-pow, mul-pos, mul-div_left, mod-eq_of_lt, mod-lt}
use lib_checkpoint.Bits.Places.{pow_add, some-pow, one-lt-pow, above, below, lowest_digit}
use lib_checkpoint.Common.Bits.{
  bit_and_shift, bit_and_comm, bit_and_assoc, bit_and-zero, bit_or-zero,
}
use lib_checkpoint.Common.Masks.{
  bit_and-bit_or, bit_and_self, zero-bit_or, bit_and-complement, bit_or-complement, bit_and-low,
}
use lib_checkpoint.Bits.{before, complement, lowest_bit, extract_field, insert_field}

-- The mask of the `w` bits from place `k` on.
abbrev pub mask : ℕ → ℕ → ℕ
mask k w = (2 ^ w - 1) * 2 ^ k

-- A number under the mask.
bit_and-mask : (k w a : ℕ) → bit_and a (mask k w) ≡ a / 2 ^ k % 2 ^ w * 2 ^ k
bit_and-mask k w a =
    bit_and_shift k a (2 ^ w - 1) ∙ ap (λ (t : ℕ). t * 2 ^ k) (bit_and-low w (a / 2 ^ k))

module _ (k w : ℕ) (some : 0 < w) (fits : k + w ≤ 64) where
  word : 2 ^ (64 - (k + w)) * (2 ^ k * 2 ^ w) ≡ 2 ^ 64
  word = omega (
    arith,
    pow_add (64 - (k + w)) (k + w),
    ap (λ (t : ℕ). 2 ^ (64 - (k + w)) * t) (pow_add k w),
    ap (λ (t : ℕ). 2 ^ t) whole,
  )
    where
      whole : 64 - (k + w) + (k + w) ≡ 64
      whole = omega arith

  at_place : (x : ℕ) → x < 2 ^ w → x * 2 ^ k < 2 ^ 64
  at_place x h =
      rw (← word)
        (below x (2 ^ k) (2 ^ w) (2 ^ (64 - (k + w))) h (some-pow k) (some-pow (64 - (k + w))))

  wide : 1 < 2 ^ w
  wide = one-lt-pow w some

  complement-before :
      complement (before (mask k w)) ≡ (1 + (2 ^ (64 - (k + w)) - 1) * 2 ^ w) * 2 ^ k
  complement-before = omega (
    arith,
    word,
    above (2 ^ k) (2 ^ w) (2 ^ (64 - (k + w))) (some-pow k) (some-pow w) (some-pow (64 - (k + w))),
    at_place (2 ^ w - 1) (omega (arith, one-le-pow w 2)),
    mul-pos {m = 2 ^ w - 1} {n = 2 ^ k} (omega (arith, wide)) (some-pow k),
  )

  lowest_bit-mask : lowest_bit (mask k w) ≡ 2 ^ k
  lowest_bit-mask =
      bit_and_comm (mask k w) (complement (before (mask k w)))
      ∙ bit_and-mask k w (complement (before (mask k w)))
      ∙ rw
          (
            complement-before,
            lowest_digit (2 ^ k) (2 ^ w) (2 ^ (64 - (k + w)) - 1) wide (some-pow k),
          )
          (omega arith)

  module _ (val fieldval : ℕ) (inside : fieldval < 2 ^ w) where
    moved : fieldval * lowest_bit (mask k w) % 2 ^ 64 ≡ fieldval * 2 ^ k
    moved = rw lowest_bit-mask (mod-eq_of_lt (at_place fieldval inside))

    moved-mask : bit_and (fieldval * 2 ^ k) (mask k w) ≡ fieldval * 2 ^ k
    moved-mask =
        bit_and-mask k w (fieldval * 2 ^ k)
        ∙ rw (mul-div_left fieldval (some-pow k), mod-eq_of_lt inside) refl

    apart : bit_and (complement (mask k w)) (mask k w) ≡ 0
    apart = bit_and-complement 64 (mask k w) (at_place (2 ^ w - 1) (omega (arith, one-le-pow w 2)))

    -- The field alone.
    insert_field-mask : bit_and (insert_field val (mask k w) fieldval) (mask k w) ≡ fieldval * 2 ^ k
    insert_field-mask =
        rw
          (
            moved,
            bit_and-bit_or (bit_and val (complement (mask k w))) (fieldval * 2 ^ k) (mask k w),
            bit_and_assoc val (complement (mask k w)) (mask k w),
            apart,
            bit_and-zero val,
            moved-mask,
          )
          (zero-bit_or (fieldval * 2 ^ k))

    extract-insert : extract_field (insert_field val (mask k w) fieldval) (mask k w) ≡ fieldval
    extract-insert = rw (insert_field-mask, lowest_bit-mask) (mul-div_left fieldval (some-pow k))

    moved-outside : bit_and (fieldval * 2 ^ k) (complement (mask k w)) ≡ 0
    moved-outside =
        ap (λ (t : ℕ). bit_and t (complement (mask k w))) (sym moved-mask)
        ∙ bit_and_assoc (fieldval * 2 ^ k) (mask k w) (complement (mask k w))
        ∙ rw (bit_and_comm (mask k w) (complement (mask k w)), apart)
            (bit_and-zero (fieldval * 2 ^ k))

    insert-outside :
        bit_and (insert_field val (mask k w) fieldval) (complement (mask k w))
        ≡ bit_and val (complement (mask k w))
    insert-outside =
        rw
          (
            moved,
            bit_and-bit_or (bit_and val (complement (mask k w))) (fieldval * 2 ^ k)
                (complement (mask k w)),
            bit_and_assoc val (complement (mask k w)) (complement (mask k w)),
            bit_and_self (complement (mask k w)),
            moved-outside,
          )
          (bit_or-zero (bit_and val (complement (mask k w))))

  extract_field-mask : (val : ℕ) → extract_field val (mask k w) ≡ val / 2 ^ k % 2 ^ w
  extract_field-mask val =
      rw (lowest_bit-mask, bit_and-mask k w val) (mul-div_left (val / 2 ^ k % 2 ^ w) (some-pow k))

  insert-extract :
      (val : ℕ) → val < 2 ^ 64 → insert_field val (mask k w) (extract_field val (mask k w)) ≡ val
  insert-extract val bounded =
      rw
        (
          extract_field-mask val,
          moved val (val / 2 ^ k % 2 ^ w) (mod-lt (val / 2 ^ k) (some-pow w)),
          ← bit_and-mask k w val,
        )
        (bit_or-complement 64 (mask k w) val (at_place (2 ^ w - 1) (omega (arith, one-le-pow w 2)))
          bounded)

  -- On the mask of a field, of at least one bit and inside 64 bits, of a word: a value that fits the
  -- field, once inserted, is what is extracted, and leaves the bits outside the field as they were;
  -- and inserting what has been extracted changes nothing.
  pub field_roundtrip :
      (val fieldval : ℕ)
      → val < 2 ^ 64
      → fieldval < 2 ^ w
      → let which = mask k w in
        (extract_field (insert_field val which fieldval) which ≡ fieldval)
        × (bit_and (insert_field val which fieldval) (complement which)
            ≡ bit_and val (complement which))
        × (insert_field val which (extract_field val which) ≡ val)
  field_roundtrip val fieldval bounded inside = (
    extract-insert val fieldval inside,
    insert-outside val fieldval inside,
    insert-extract val bounded,
  )
