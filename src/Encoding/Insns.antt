-- ===== src/Encoding/Insns.antt =====
-- include/encoding.h: the table of instructions.
pub mod Table
pub mod Integer
pub mod Float
pub mod Compressed
pub mod Declared
pub mod Patterns
pub mod Decoding
pub mod Tests
use lib_checkpoint.Common.{List, ◌++◌}
use Table.{InsnTable}
use Integer.{integer_insns, system_insns}
use Float.{float_insns, float_move_insns}
use Compressed.{compressed_insns, custom_insns}

abbrev pub insns : InsnTable
insns =
    integer_insns ++ system_insns ++ float_insns ++ float_move_insns ++ compressed_insns
    ++ custom_insns

-- the instructions of 32 bits
abbrev pub wide_insns : InsnTable
wide_insns = integer_insns ++ system_insns ++ float_insns ++ float_move_insns ++ custom_insns
