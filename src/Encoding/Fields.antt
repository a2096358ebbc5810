-- ===== src/Encoding/Fields.antt =====
-- include/encoding.h: the fields of the status registers, of the debug and trigger registers, and of
-- `satp` and a PMP entry, each by its mask, and the values that a field may have.
pub mod Apart
pub mod Values
mod Tests
use lib_checkpoint.Common.{ℕ, ◌-◌, ◌*◌, ◌^◌, List, [], ◌∷◌, ◌++◌}
use lib_checkpoint.Encoding.Csrs.{CsrTable}

-- `MSTATUS_UIE` to `MSTATUS_MPV`
abbrev pub mstatus_low_fields : CsrTable
mstatus_low_fields =
    ("uie", 0x00000001)
    ∷ ("sie", 0x00000002)
    ∷ ("hie", 0x00000004)
    ∷ ("mie", 0x00000008)
    ∷ ("upie", 0x00000010)
    ∷ ("spie", 0x00000020)
    ∷ ("hpie", 0x00000040)
    ∷ ("mpie", 0x00000080)
    ∷ ("spp", 0x00000100)
    ∷ ("hpp", 0x00000600)
    ∷ ("mpp", 0x00001800)
    ∷ ("fs", 0x00006000)
    ∷ ("xs", 0x00018000)
    ∷ ("mprv", 0x00020000)
    ∷ ("mpv", 0x0000008000000000)
    ∷ []

-- `MSTATUS_SUM` to `MSTATUS64_SD`
abbrev pub mstatus_high_fields : CsrTable
mstatus_high_fields =
    ("sum", 0x00040000)
    ∷ ("mxr", 0x00080000)
    ∷ ("tvm", 0x00100000)
    ∷ ("tw", 0x00200000)
    ∷ ("tsr", 0x00400000)
    ∷ ("sd32", 0x80000000)
    ∷ ("uxl", 0x0000000300000000)
    ∷ ("sxl", 0x0000000C00000000)
    ∷ ("sd64", 0x8000000000000000)
    ∷ []

-- `SSTATUS_UIE` to `SSTATUS64_SD`
abbrev pub sstatus_fields : CsrTable
sstatus_fields =
    ("uie", 0x00000001)
    ∷ ("sie", 0x00000002)
    ∷ ("upie", 0x00000010)
    ∷ ("spie", 0x00000020)
    ∷ ("spp", 0x00000100)
    ∷ ("fs", 0x00006000)
    ∷ ("xs", 0x00018000)
    ∷ ("sum", 0x00040000)
    ∷ ("mxr", 0x00080000)
    ∷ ("sd32", 0x80000000)
    ∷ ("uxl", 0x0000000300000000)
    ∷ ("sd64", 0x8000000000000000)
    ∷ []

-- `DCSR_XDEBUGVER` to `DCSR_PRV`
abbrev pub dcsr_fields : CsrTable
dcsr_fields =
    ("xdebugver", 3 * 2 ^ 30)
    ∷ ("ndreset", 1 * 2 ^ 29)
    ∷ ("fullreset", 1 * 2 ^ 28)
    ∷ ("ebreakm", 1 * 2 ^ 15)
    ∷ ("ebreakh", 1 * 2 ^ 14)
    ∷ ("ebreaks", 1 * 2 ^ 13)
    ∷ ("ebreaku", 1 * 2 ^ 12)
    ∷ ("stopcycle", 1 * 2 ^ 10)
    ∷ ("stoptime", 1 * 2 ^ 9)
    ∷ ("cause", 7 * 2 ^ 6)
    ∷ ("debugint", 1 * 2 ^ 5)
    ∷ ("halt", 1 * 2 ^ 3)
    ∷ ("step", 1 * 2 ^ 2)
    ∷ ("prv", 3 * 2 ^ 0)
    ∷ []

-- the values of `DCSR_CAUSE`
abbrev pub dcsr_causes : CsrTable
dcsr_causes =
    ("none", 0) ∷ ("swbp", 1) ∷ ("hwbp", 2) ∷ ("debugint", 3) ∷ ("step", 4) ∷ ("halt", 5) ∷ []

abbrev pub mcontrol_type : ℕ → ℕ
mcontrol_type xlen = 0xf * 2 ^ (xlen - 4)

abbrev pub mcontrol_dmode : ℕ → ℕ
mcontrol_dmode xlen = 1 * 2 ^ (xlen - 5)

abbrev pub mcontrol_maskmax : ℕ → ℕ
mcontrol_maskmax xlen = 0x3f * 2 ^ (xlen - 11)

-- `MCONTROL_SELECT` to `MCONTROL_LOAD`
abbrev pub mcontrol_fields : CsrTable
mcontrol_fields =
    ("select", 1 * 2 ^ 19)
    ∷ ("timing", 1 * 2 ^ 18)
    ∷ ("action", 0x3f * 2 ^ 12)
    ∷ ("chain", 1 * 2 ^ 11)
    ∷ ("match", 0xf * 2 ^ 7)
    ∷ ("m", 1 * 2 ^ 6)
    ∷ ("h", 1 * 2 ^ 5)
    ∷ ("s", 1 * 2 ^ 4)
    ∷ ("u", 1 * 2 ^ 3)
    ∷ ("execute", 1 * 2 ^ 2)
    ∷ ("store", 1 * 2 ^ 1)
    ∷ ("load", 1 * 2 ^ 0)
    ∷ []

-- the values of `MCONTROL_TYPE`
abbrev pub mcontrol_types : CsrTable
mcontrol_types = ("none", 0) ∷ ("match", 2) ∷ []

-- the values of `MCONTROL_ACTION`
abbrev pub mcontrol_actions : CsrTable
mcontrol_actions =
    ("debug_exception", 0)
    ∷ ("debug_mode", 1)
    ∷ ("trace_start", 2)
    ∷ ("trace_stop", 3)
    ∷ ("trace_emit", 4)
    ∷ []

-- the values of `MCONTROL_MATCH`
abbrev pub mcontrol_matches : CsrTable
mcontrol_matches =
    ("equal", 0) ∷ ("napot", 1) ∷ ("ge", 2) ∷ ("lt", 3) ∷ ("mask_low", 4) ∷ ("mask_high", 5) ∷ []

abbrev pub irq_s_soft : ℕ
irq_s_soft = 1

abbrev pub irq_h_soft : ℕ
irq_h_soft = 2

abbrev pub irq_m_soft : ℕ
irq_m_soft = 3

abbrev pub irq_s_timer : ℕ
irq_s_timer = 5

abbrev pub irq_h_timer : ℕ
irq_h_timer = 6

abbrev pub irq_m_timer : ℕ
irq_m_timer = 7

abbrev pub irq_s_ext : ℕ
irq_s_ext = 9

abbrev pub irq_h_ext : ℕ
irq_h_ext = 10

abbrev pub irq_m_ext : ℕ
irq_m_ext = 11

abbrev pub irq_cop : ℕ
irq_cop = 12

abbrev pub irq_host : ℕ
irq_host = 13

-- `MIP_SSIP` to `MIP_MEIP`, by the number of the interrupt
abbrev pub mip_fields : CsrTable
mip_fields =
    ("ssip", 1 * 2 ^ irq_s_soft)
    ∷ ("hsip", 1 * 2 ^ irq_h_soft)
    ∷ ("msip", 1 * 2 ^ irq_m_soft)
    ∷ ("stip", 1 * 2 ^ irq_s_timer)
    ∷ ("htip", 1 * 2 ^ irq_h_timer)
    ∷ ("mtip", 1 * 2 ^ irq_m_timer)
    ∷ ("seip", 1 * 2 ^ irq_s_ext)
    ∷ ("heip", 1 * 2 ^ irq_h_ext)
    ∷ ("meip", 1 * 2 ^ irq_m_ext)
    ∷ []

-- `MIE_STIE` to `MIE_MTIE`
abbrev pub mie_fields : CsrTable
mie_fields =
    ("stie", 1 * 2 ^ irq_s_timer)
    ∷ ("htie", 1 * 2 ^ irq_h_timer)
    ∷ ("mtie", 1 * 2 ^ irq_m_timer)
    ∷ []

-- `PRV_U` to `PRV_M`, the values of `MSTATUS_MPP`
abbrev pub privileges : CsrTable
privileges = ("u", 0) ∷ ("s", 1) ∷ ("h", 2) ∷ ("m", 3) ∷ []

-- `SATP32_MODE` to `SATP32_PPN`
abbrev pub satp32_fields : CsrTable
satp32_fields = ("mode", 0x80000000) ∷ ("asid", 0x7FC00000) ∷ ("ppn", 0x003FFFFF) ∷ []

-- `SATP64_MODE` to `SATP64_PPN`
abbrev pub satp64_fields : CsrTable
satp64_fields =
    ("mode", 0xF000000000000000) ∷ ("asid", 0x0FFFF00000000000) ∷ ("ppn", 0x00000FFFFFFFFFFF) ∷ []

-- the values of `SATP64_MODE`
abbrev pub satp_modes : CsrTable
satp_modes = ("off", 0) ∷ ("sv32", 1) ∷ ("sv39", 8) ∷ ("sv48", 9) ∷ ("sv57", 10) ∷ ("sv64", 11) ∷ []

-- `PMP_R` to `PMP_L`
abbrev pub pmp_fields : CsrTable
pmp_fields = ("r", 0x01) ∷ ("w", 0x02) ∷ ("x", 0x04) ∷ ("a", 0x18) ∷ ("l", 0x80) ∷ []

-- Each register by its table; the trigger register has 64 bits.
abbrev pub registers : List CsrTable
registers =
    (mstatus_low_fields ++ mstatus_high_fields)
    ∷ sstatus_fields
    ∷ dcsr_fields
    ∷ (("type", mcontrol_type 64)
        ∷ ("dmode", mcontrol_dmode 64)
        ∷ ("maskmax", mcontrol_maskmax 64)
        ∷ mcontrol_fields)
    ∷ mip_fields
    ∷ mie_fields
    ∷ satp32_fields
    ∷ satp64_fields
    ∷ pmp_fields
    ∷ []
