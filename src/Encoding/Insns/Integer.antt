-- ===== src/Encoding/Insns/Integer.antt =====
-- include/encoding.h: the patterns (`MATCH_` and `MASK_`) of the integer, multiplication, atomic and
-- system instructions, in the order of the file.
use lib_checkpoint.Common.{[], ◌∷◌}
use lib_checkpoint.Encoding.Insns.Table.{InsnTable}

-- integer and multiplication
abbrev pub integer_insns : InsnTable
integer_insns =
    ("beq", 0x63, 0x707f)
    ∷ ("bne", 0x1063, 0x707f)
    ∷ ("blt", 0x4063, 0x707f)
    ∷ ("bge", 0x5063, 0x707f)
    ∷ ("bltu", 0x6063, 0x707f)
    ∷ ("bgeu", 0x7063, 0x707f)
    ∷ ("jalr", 0x67, 0x707f)
    ∷ ("jal", 0x6f, 0x7f)
    ∷ ("lui", 0x37, 0x7f)
    ∷ ("auipc", 0x17, 0x7f)
    ∷ ("addi", 0x13, 0x707f)
    ∷ ("slli", 0x1013, 0xfc00707f)
    ∷ ("slti", 0x2013, 0x707f)
    ∷ ("sltiu", 0x3013, 0x707f)
    ∷ ("xori", 0x4013, 0x707f)
    ∷ ("srli", 0x5013, 0xfc00707f)
    ∷ ("srai", 0x40005013, 0xfc00707f)
    ∷ ("ori", 0x6013, 0x707f)
    ∷ ("andi", 0x7013, 0x707f)
    ∷ ("add", 0x33, 0xfe00707f)
    ∷ ("sub", 0x40000033, 0xfe00707f)
    ∷ ("sll", 0x1033, 0xfe00707f)
    ∷ ("slt", 0x2033, 0xfe00707f)
    ∷ ("sltu", 0x3033, 0xfe00707f)
    ∷ ("xor", 0x4033, 0xfe00707f)
    ∷ ("srl", 0x5033, 0xfe00707f)
    ∷ ("sra", 0x40005033, 0xfe00707f)
    ∷ ("or", 0x6033, 0xfe00707f)
    ∷ ("and", 0x7033, 0xfe00707f)
    ∷ ("addiw", 0x1b, 0x707f)
    ∷ ("slliw", 0x101b, 0xfe00707f)
    ∷ ("srliw", 0x501b, 0xfe00707f)
    ∷ ("sraiw", 0x4000501b, 0xfe00707f)
    ∷ ("addw", 0x3b, 0xfe00707f)
    ∷ ("subw", 0x4000003b, 0xfe00707f)
    ∷ ("sllw", 0x103b, 0xfe00707f)
    ∷ ("srlw", 0x503b, 0xfe00707f)
    ∷ ("sraw", 0x4000503b, 0xfe00707f)
    ∷ ("lb", 0x3, 0x707f)
    ∷ ("lh", 0x1003, 0x707f)
    ∷ ("lw", 0x2003, 0x707f)
    ∷ ("ld", 0x3003, 0x707f)
    ∷ ("lbu", 0x4003, 0x707f)
    ∷ ("lhu", 0x5003, 0x707f)
    ∷ ("lwu", 0x6003, 0x707f)
    ∷ ("sb", 0x23, 0x707f)
    ∷ ("sh", 0x1023, 0x707f)
    ∷ ("sw", 0x2023, 0x707f)
    ∷ ("sd", 0x3023, 0x707f)
    ∷ ("fence", 0xf, 0x707f)
    ∷ ("fence_i", 0x100f, 0x707f)
    ∷ ("mul", 0x2000033, 0xfe00707f)
    ∷ ("mulh", 0x2001033, 0xfe00707f)
    ∷ ("mulhsu", 0x2002033, 0xfe00707f)
    ∷ ("mulhu", 0x2003033, 0xfe00707f)
    ∷ ("div", 0x2004033, 0xfe00707f)
    ∷ ("divu", 0x2005033, 0xfe00707f)
    ∷ ("rem", 0x2006033, 0xfe00707f)
    ∷ ("remu", 0x2007033, 0xfe00707f)
    ∷ ("mulw", 0x200003b, 0xfe00707f)
    ∷ ("divw", 0x200403b, 0xfe00707f)
    ∷ ("divuw", 0x200503b, 0xfe00707f)
    ∷ ("remw", 0x200603b, 0xfe00707f)
    ∷ ("remuw", 0x200703b, 0xfe00707f)
    ∷ []

-- atomic and system
abbrev pub system_insns : InsnTable
system_insns =
    ("amoadd_w", 0x202f, 0xf800707f)
    ∷ ("amoxor_w", 0x2000202f, 0xf800707f)
    ∷ ("amoor_w", 0x4000202f, 0xf800707f)
    ∷ ("amoand_w", 0x6000202f, 0xf800707f)
    ∷ ("amomin_w", 0x8000202f, 0xf800707f)
    ∷ ("amomax_w", 0xa000202f, 0xf800707f)
    ∷ ("amominu_w", 0xc000202f, 0xf800707f)
    ∷ ("amomaxu_w", 0xe000202f, 0xf800707f)
    ∷ ("amoswap_w", 0x800202f, 0xf800707f)
    ∷ ("lr_w", 0x1000202f, 0xf9f0707f)
    ∷ ("sc_w", 0x1800202f, 0xf800707f)
    ∷ ("amoadd_d", 0x302f, 0xf800707f)
    ∷ ("amoxor_d", 0x2000302f, 0xf800707f)
    ∷ ("amoor_d", 0x4000302f, 0xf800707f)
    ∷ ("amoand_d", 0x6000302f, 0xf800707f)
    ∷ ("amomin_d", 0x8000302f, 0xf800707f)
    ∷ ("amomax_d", 0xa000302f, 0xf800707f)
    ∷ ("amominu_d", 0xc000302f, 0xf800707f)
    ∷ ("amomaxu_d", 0xe000302f, 0xf800707f)
    ∷ ("amoswap_d", 0x800302f, 0xf800707f)
    ∷ ("lr_d", 0x1000302f, 0xf9f0707f)
    ∷ ("sc_d", 0x1800302f, 0xf800707f)
    ∷ ("ecall", 0x73, 0xffffffff)
    ∷ ("ebreak", 0x100073, 0xffffffff)
    ∷ ("uret", 0x200073, 0xffffffff)
    ∷ ("sret", 0x10200073, 0xffffffff)
    ∷ ("mret", 0x30200073, 0xffffffff)
    ∷ ("dret", 0x7b200073, 0xffffffff)
    ∷ ("sfence_vma", 0x12000073, 0xfe007fff)
    ∷ ("wfi", 0x10500073, 0xffffffff)
    ∷ ("csrrw", 0x1073, 0x707f)
    ∷ ("csrrs", 0x2073, 0x707f)
    ∷ ("csrrc", 0x3073, 0x707f)
    ∷ ("csrrwi", 0x5073, 0x707f)
    ∷ ("csrrsi", 0x6073, 0x707f)
    ∷ ("csrrci", 0x7073, 0x707f)
    ∷ []
