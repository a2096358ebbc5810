-- ===== src/Encoding/Insns/Compressed.antt =====
-- include/encoding.h: the patterns of the compressed instructions and of the custom ones.
use lib_checkpoint.Common.{[], ◌∷◌}
use lib_checkpoint.Encoding.Insns.Table.{InsnTable}

-- 16 bits
abbrev pub compressed_insns : InsnTable
compressed_insns =
    ("c_nop", 0x1, 0xffff)
    ∷ ("c_addi16sp", 0x6101, 0xef83)
    ∷ ("c_jr", 0x8002, 0xf07f)
    ∷ ("c_jalr", 0x9002, 0xf07f)
    ∷ ("c_ebreak", 0x9002, 0xffff)
    ∷ ("c_ld", 0x6000, 0xe003)
    ∷ ("c_sd", 0xe000, 0xe003)
    ∷ ("c_addiw", 0x2001, 0xe003)
    ∷ ("c_ldsp", 0x6002, 0xe003)
    ∷ ("c_sdsp", 0xe002, 0xe003)
    ∷ ("c_addi4spn", 0x0, 0xe003)
    ∷ ("c_fld", 0x2000, 0xe003)
    ∷ ("c_lw", 0x4000, 0xe003)
    ∷ ("c_flw", 0x6000, 0xe003)
    ∷ ("c_fsd", 0xa000, 0xe003)
    ∷ ("c_sw", 0xc000, 0xe003)
    ∷ ("c_fsw", 0xe000, 0xe003)
    ∷ ("c_addi", 0x1, 0xe003)
    ∷ ("c_jal", 0x2001, 0xe003)
    ∷ ("c_li", 0x4001, 0xe003)
    ∷ ("c_lui", 0x6001, 0xe003)
    ∷ ("c_srli", 0x8001, 0xec03)
    ∷ ("c_srai", 0x8401, 0xec03)
    ∷ ("c_andi", 0x8801, 0xec03)
    ∷ ("c_sub", 0x8c01, 0xfc63)
    ∷ ("c_xor", 0x8c21, 0xfc63)
    ∷ ("c_or", 0x8c41, 0xfc63)
    ∷ ("c_and", 0x8c61, 0xfc63)
    ∷ ("c_subw", 0x9c01, 0xfc63)
    ∷ ("c_addw", 0x9c21, 0xfc63)
    ∷ ("c_j", 0xa001, 0xe003)
    ∷ ("c_beqz", 0xc001, 0xe003)
    ∷ ("c_bnez", 0xe001, 0xe003)
    ∷ ("c_slli", 0x2, 0xe003)
    ∷ ("c_fldsp", 0x2002, 0xe003)
    ∷ ("c_lwsp", 0x4002, 0xe003)
    ∷ ("c_flwsp", 0x6002, 0xe003)
    ∷ ("c_mv", 0x8002, 0xf003)
    ∷ ("c_add", 0x9002, 0xf003)
    ∷ ("c_fsdsp", 0xa002, 0xe003)
    ∷ ("c_swsp", 0xc002, 0xe003)
    ∷ ("c_fswsp", 0xe002, 0xe003)
    ∷ []

-- 32 bits, free for any use
abbrev pub custom_insns : InsnTable
custom_insns =
    ("custom0", 0xb, 0x707f)
    ∷ ("custom0_rs1", 0x200b, 0x707f)
    ∷ ("custom0_rs1_rs2", 0x300b, 0x707f)
    ∷ ("custom0_rd", 0x400b, 0x707f)
    ∷ ("custom0_rd_rs1", 0x600b, 0x707f)
    ∷ ("custom0_rd_rs1_rs2", 0x700b, 0x707f)
    ∷ ("custom1", 0x2b, 0x707f)
    ∷ ("custom1_rs1", 0x202b, 0x707f)
    ∷ ("custom1_rs1_rs2", 0x302b, 0x707f)
    ∷ ("custom1_rd", 0x402b, 0x707f)
    ∷ ("custom1_rd_rs1", 0x602b, 0x707f)
    ∷ ("custom1_rd_rs1_rs2", 0x702b, 0x707f)
    ∷ ("custom2", 0x5b, 0x707f)
    ∷ ("custom2_rs1", 0x205b, 0x707f)
    ∷ ("custom2_rs1_rs2", 0x305b, 0x707f)
    ∷ ("custom2_rd", 0x405b, 0x707f)
    ∷ ("custom2_rd_rs1", 0x605b, 0x707f)
    ∷ ("custom2_rd_rs1_rs2", 0x705b, 0x707f)
    ∷ ("custom3", 0x7b, 0x707f)
    ∷ ("custom3_rs1", 0x207b, 0x707f)
    ∷ ("custom3_rs1_rs2", 0x307b, 0x707f)
    ∷ ("custom3_rd", 0x407b, 0x707f)
    ∷ ("custom3_rd_rs1", 0x607b, 0x707f)
    ∷ ("custom3_rd_rs1_rs2", 0x707b, 0x707f)
    ∷ []
