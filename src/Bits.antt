-- ===== src/Bits.antt =====
-- include/bits.h: rounding, choice and fields of a word, on operands of type `uint64_t`.
pub mod Rounding
mod Places
pub mod Fields
mod Tests
use lib_checkpoint.Common.{ℕ, ◌+◌, ◌-◌, ◌*◌, ◌/◌, ◌%◌, ◌^◌, bit_and, bit_or, ltb, if◌then◌else◌}

-- `a - 1` on a `uint64_t`
abbrev pub before : ℕ → ℕ
before a = (a + (2 ^ 64 - 1)) % 2 ^ 64

-- `~a` on a `uint64_t`
abbrev pub complement : ℕ → ℕ
complement a = 2 ^ 64 - 1 - a

-- `ROUNDUP`, for a divisor that is not zero
abbrev pub roundup : ℕ → ℕ → ℕ
roundup a b = (before a / b + 1) % 2 ^ 64 * b % 2 ^ 64

-- `ROUNDDOWN`, for a divisor that is not zero
abbrev pub rounddown : ℕ → ℕ → ℕ
rounddown a b = a / b * b % 2 ^ 64

-- `MAX`, which looks at `a > b`
abbrev pub max : ℕ → ℕ → ℕ
max a b = if ltb b a then a else b

-- `MIN`
abbrev pub min : ℕ → ℕ → ℕ
min a b = if ltb b a then b else a

-- `CLAMP`
abbrev pub clamp : ℕ → ℕ → ℕ → ℕ
clamp a lo hi = min (max a lo) hi

-- `(which) & ~((which)-1)`, the lowest bit of a mask
abbrev pub lowest_bit : ℕ → ℕ
lowest_bit which = bit_and which (complement (before which))

-- `EXTRACT_FIELD`, for a mask that is not zero
abbrev pub extract_field : ℕ → ℕ → ℕ
extract_field val which = bit_and val which / lowest_bit which

-- `INSERT_FIELD`
abbrev pub insert_field : ℕ → ℕ → ℕ → ℕ
insert_field val which fieldval =
    bit_or (bit_and val (complement which)) (fieldval * lowest_bit which % 2 ^ 64)
