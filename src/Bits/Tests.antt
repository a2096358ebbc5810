-- ===== src/Bits/Tests.antt =====
-- Runs on single words.
use lib_checkpoint.Common.{◌≡◌, refl}
use lib_checkpoint.Bits.{roundup, rounddown, clamp, extract_field, insert_field}

roundup_test : (roundup 13 8 ≡ 16) × (roundup 16 8 ≡ 16) × (roundup 0 8 ≡ 0) × (roundup 0 3 ≡ 2)
roundup_test = (refl, refl, refl, refl)

rounddown_test : (rounddown 13 8 ≡ 8) × (clamp 3 5 9 ≡ 5) × (clamp 7 5 9 ≡ 7)
rounddown_test = (refl, refl, refl)

field_test : (insert_field 0xffff 0x0ff0 0x12 ≡ 0xf12f) × (extract_field 0xf12f 0x0ff0 ≡ 0x12)
field_test = (refl, refl)
