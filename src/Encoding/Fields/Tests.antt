-- ===== src/Encoding/Fields/Tests.antt =====
-- The values of one field.
use lib_checkpoint.Common.{◌≡◌, refl, arith, bit_and}
use lib_checkpoint.Bits.{complement, extract_field, insert_field}
use lib_checkpoint.Encoding.Fields.{privileges}
use lib_checkpoint.Encoding.Fields.Values.{values_roundtrip}

-- supervisor mode in MPP
values_roundtrip_example :
    (extract_field (insert_field 0xffff 0x1800 1) 0x1800 ≡ 1)
    × (bit_and (insert_field 0xffff 0x1800 1) (complement 0x1800)
        ≡ bit_and 0xffff (complement 0x1800))
values_roundtrip_example =
    values_roundtrip 4 1 (record { field = 0x1800; place = 11; width = 2; values = privileges }) "s"
      1 0xffff refl refl (omega arith)
