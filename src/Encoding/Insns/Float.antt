-- ===== src/Encoding/Insns/Float.antt =====
-- include/encoding.h: the patterns of the float instructions, in the order of the file.
use lib_checkpoint.Common.{[], ◌∷◌}
use lib_checkpoint.Encoding.Insns.Table.{InsnTable}

-- arithmetic, comparisons, and conversions to integers
abbrev pub float_insns : InsnTable
float_insns =
    ("fadd_s", 0x53, 0xfe00007f)
    ∷ ("fsub_s", 0x8000053, 0xfe00007f)
    ∷ ("fmul_s", 0x10000053, 0xfe00007f)
    ∷ ("fdiv_s", 0x18000053, 0xfe00007f)
    ∷ ("fsgnj_s", 0x20000053, 0xfe00707f)
    ∷ ("fsgnjn_s", 0x20001053, 0xfe00707f)
    ∷ ("fsgnjx_s", 0x20002053, 0xfe00707f)
    ∷ ("fmin_s", 0x28000053, 0xfe00707f)
    ∷ ("fmax_s", 0x28001053, 0xfe00707f)
    ∷ ("fsqrt_s", 0x58000053, 0xfff0007f)
    ∷ ("fadd_d", 0x2000053, 0xfe00007f)
    ∷ ("fsub_d", 0xa000053, 0xfe00007f)
    ∷ ("fmul_d", 0x12000053, 0xfe00007f)
    ∷ ("fdiv_d", 0x1a000053, 0xfe00007f)
    ∷ ("fsgnj_d", 0x22000053, 0xfe00707f)
    ∷ ("fsgnjn_d", 0x22001053, 0xfe00707f)
    ∷ ("fsgnjx_d", 0x22002053, 0xfe00707f)
    ∷ ("fmin_d", 0x2a000053, 0xfe00707f)
    ∷ ("fmax_d", 0x2a001053, 0xfe00707f)
    ∷ ("fcvt_s_d", 0x40100053, 0xfff0007f)
    ∷ ("fcvt_d_s", 0x42000053, 0xfff0007f)
    ∷ ("fsqrt_d", 0x5a000053, 0xfff0007f)
    ∷ ("fadd_q", 0x6000053, 0xfe00007f)
    ∷ ("fsub_q", 0xe000053, 0xfe00007f)
    ∷ ("fmul_q", 0x16000053, 0xfe00007f)
    ∷ ("fdiv_q", 0x1e000053, 0xfe00007f)
    ∷ ("fsgnj_q", 0x26000053, 0xfe00707f)
    ∷ ("fsgnjn_q", 0x26001053, 0xfe00707f)
    ∷ ("fsgnjx_q", 0x26002053, 0xfe00707f)
    ∷ ("fmin_q", 0x2e000053, 0xfe00707f)
    ∷ ("fmax_q", 0x2e001053, 0xfe00707f)
    ∷ ("fcvt_s_q", 0x40300053, 0xfff0007f)
    ∷ ("fcvt_q_s", 0x46000053, 0xfff0007f)
    ∷ ("fcvt_d_q", 0x42300053, 0xfff0007f)
    ∷ ("fcvt_q_d", 0x46100053, 0xfff0007f)
    ∷ ("fsqrt_q", 0x5e000053, 0xfff0007f)
    ∷ ("fle_s", 0xa0000053, 0xfe00707f)
    ∷ ("flt_s", 0xa0001053, 0xfe00707f)
    ∷ ("feq_s", 0xa0002053, 0xfe00707f)
    ∷ ("fle_d", 0xa2000053, 0xfe00707f)
    ∷ ("flt_d", 0xa2001053, 0xfe00707f)
    ∷ ("feq_d", 0xa2002053, 0xfe00707f)
    ∷ ("fle_q", 0xa6000053, 0xfe00707f)
    ∷ ("flt_q", 0xa6001053, 0xfe00707f)
    ∷ ("feq_q", 0xa6002053, 0xfe00707f)
    ∷ ("fcvt_w_s", 0xc0000053, 0xfff0007f)
    ∷ ("fcvt_wu_s", 0xc0100053, 0xfff0007f)
    ∷ ("fcvt_l_s", 0xc0200053, 0xfff0007f)
    ∷ ("fcvt_lu_s", 0xc0300053, 0xfff0007f)
    ∷ ("fmv_x_w", 0xe0000053, 0xfff0707f)
    ∷ ("fclass_s", 0xe0001053, 0xfff0707f)
    ∷ ("fcvt_w_d", 0xc2000053, 0xfff0007f)
    ∷ ("fcvt_wu_d", 0xc2100053, 0xfff0007f)
    ∷ ("fcvt_l_d", 0xc2200053, 0xfff0007f)
    ∷ ("fcvt_lu_d", 0xc2300053, 0xfff0007f)
    ∷ ("fmv_x_d", 0xe2000053, 0xfff0707f)
    ∷ ("fclass_d", 0xe2001053, 0xfff0707f)
    ∷ ("fcvt_w_q", 0xc6000053, 0xfff0007f)
    ∷ ("fcvt_wu_q", 0xc6100053, 0xfff0007f)
    ∷ ("fcvt_l_q", 0xc6200053, 0xfff0007f)
    ∷ ("fcvt_lu_q", 0xc6300053, 0xfff0007f)
    ∷ ("fmv_x_q", 0xe6000053, 0xfff0707f)
    ∷ ("fclass_q", 0xe6001053, 0xfff0707f)
    ∷ []

-- conversions from integers, loads, stores and fused operations
abbrev pub float_move_insns : InsnTable
float_move_insns =
    ("fcvt_s_w", 0xd0000053, 0xfff0007f)
    ∷ ("fcvt_s_wu", 0xd0100053, 0xfff0007f)
    ∷ ("fcvt_s_l", 0xd0200053, 0xfff0007f)
    ∷ ("fcvt_s_lu", 0xd0300053, 0xfff0007f)
    ∷ ("fmv_w_x", 0xf0000053, 0xfff0707f)
    ∷ ("fcvt_d_w", 0xd2000053, 0xfff0007f)
    ∷ ("fcvt_d_wu", 0xd2100053, 0xfff0007f)
    ∷ ("fcvt_d_l", 0xd2200053, 0xfff0007f)
    ∷ ("fcvt_d_lu", 0xd2300053, 0xfff0007f)
    ∷ ("fmv_d_x", 0xf2000053, 0xfff0707f)
    ∷ ("fcvt_q_w", 0xd6000053, 0xfff0007f)
    ∷ ("fcvt_q_wu", 0xd6100053, 0xfff0007f)
    ∷ ("fcvt_q_l", 0xd6200053, 0xfff0007f)
    ∷ ("fcvt_q_lu", 0xd6300053, 0xfff0007f)
    ∷ ("fmv_q_x", 0xf6000053, 0xfff0707f)
    ∷ ("flw", 0x2007, 0x707f)
    ∷ ("fld", 0x3007, 0x707f)
    ∷ ("flq", 0x4007, 0x707f)
    ∷ ("fsw", 0x2027, 0x707f)
    ∷ ("fsd", 0x3027, 0x707f)
    ∷ ("fsq", 0x4027, 0x707f)
    ∷ ("fmadd_s", 0x43, 0x600007f)
    ∷ ("fmsub_s", 0x47, 0x600007f)
    ∷ ("fnmsub_s", 0x4b, 0x600007f)
    ∷ ("fnmadd_s", 0x4f, 0x600007f)
    ∷ ("fmadd_d", 0x2000043, 0x600007f)
    ∷ ("fmsub_d", 0x2000047, 0x600007f)
    ∷ ("fnmsub_d", 0x200004b, 0x600007f)
    ∷ ("fnmadd_d", 0x200004f, 0x600007f)
    ∷ ("fmadd_q", 0x6000043, 0x600007f)
    ∷ ("fmsub_q", 0x6000047, 0x600007f)
    ∷ ("fnmsub_q", 0x600004b, 0x600007f)
    ∷ ("fnmadd_q", 0x600004f, 0x600007f)
    ∷ []
