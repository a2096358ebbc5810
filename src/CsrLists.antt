-- ===== src/CsrLists.antt =====
-- include/csr.h: the CSRs that are restored, in the order in which they are written.
pub mod Agree
pub mod Tests
use lib_checkpoint.Common.{ℕ, List, [], ◌∷◌}
use lib_checkpoint.Encoding.Csrs.{CsrTable}

-- `CSRS`
abbrev pub csrs : CsrTable
csrs =
    ("frm", 0x002)
    ∷ ("menvcfg", 0x30a)
    ∷ ("mstateen0", 0x30c)
    ∷ ("mstateen1", 0x30d)
    ∷ ("mstateen2", 0x30e)
    ∷ ("mstateen3", 0x30f)
    ∷ ("mstatus", 0x300)
    ∷ ("medeleg", 0x302)
    ∷ ("mideleg", 0x303)
    ∷ ("mie", 0x304)
    ∷ ("mtvec", 0x305)
    ∷ ("mcounteren", 0x306)
    ∷ ("mscratch", 0x340)
    ∷ ("mepc", 0x341)
    ∷ ("mcause", 0x342)
    ∷ ("mtval", 0x343)
    ∷ ("mip", 0x344)
    ∷ ("pmpcfg0", 0x3a0)
    ∷ ("pmpcfg2", 0x3a2)
    ∷ ("pmpaddr0", 0x3b0)
    ∷ ("pmpaddr1", 0x3b1)
    ∷ ("pmpaddr2", 0x3b2)
    ∷ ("pmpaddr3", 0x3b3)
    ∷ ("pmpaddr4", 0x3b4)
    ∷ ("pmpaddr5", 0x3b5)
    ∷ ("pmpaddr6", 0x3b6)
    ∷ ("pmpaddr7", 0x3b7)
    ∷ ("pmpaddr8", 0x3b8)
    ∷ ("pmpaddr9", 0x3b9)
    ∷ ("pmpaddr10", 0x3ba)
    ∷ ("pmpaddr11", 0x3bb)
    ∷ ("pmpaddr12", 0x3bc)
    ∷ ("pmpaddr13", 0x3bd)
    ∷ ("pmpaddr14", 0x3be)
    ∷ ("pmpaddr15", 0x3bf)
    ∷ ("stvec", 0x105)
    ∷ ("scounteren", 0x106)
    ∷ ("sscratch", 0x140)
    ∷ ("sepc", 0x141)
    ∷ ("scause", 0x142)
    ∷ ("stval", 0x143)
    ∷ ("senvcfg", 0x10a)
    ∷ ("sstateen0", 0x10c)
    ∷ ("sstateen1", 0x10d)
    ∷ ("sstateen2", 0x10e)
    ∷ ("sstateen3", 0x10f)
    ∷ ("satp", 0x180)
    ∷ []

-- `HCSRS`
abbrev pub hcsrs : CsrTable
hcsrs =
    ("hstatus", 0x600)
    ∷ ("hedeleg", 0x602)
    ∷ ("hideleg", 0x603)
    ∷ ("hie", 0x604)
    ∷ ("hcounteren", 0x606)
    ∷ ("hgeie", 0x607)
    ∷ ("htval", 0x643)
    ∷ ("hip", 0x644)
    ∷ ("hvip", 0x645)
    ∷ ("htinst", 0x64A)
    ∷ ("henvcfg", 0x60A)
    ∷ ("hstateen0", 0x60c)
    ∷ ("hstateen1", 0x60d)
    ∷ ("hstateen2", 0x60e)
    ∷ ("hstateen3", 0x60f)
    ∷ ("hgatp", 0x680)
    ∷ ("htimedelta", 0x605)
    ∷ ("vsstatus", 0x200)
    ∷ ("vsie", 0x204)
    ∷ ("vstvec", 0x205)
    ∷ ("vsscratch", 0x240)
    ∷ ("vsepc", 0x241)
    ∷ ("vscause", 0x242)
    ∷ ("vstval", 0x243)
    ∷ ("vsip", 0x244)
    ∷ ("vsatp", 0x280)
    ∷ ("mtval2", 0x34b)
    ∷ ("mtinst", 0x34A)
    ∷ []

abbrev pub vl_id : ℕ
vl_id = 0xc20

abbrev pub vtype_id : ℕ
vtype_id = 0xc21

abbrev pub vlenb_id : ℕ
vlenb_id = 0xc22

abbrev pub clint_mmio : ℕ
clint_mmio = 0x38000000

abbrev pub clint_mtimecmp : ℕ
clint_mtimecmp = 0x4000

abbrev pub clint_mtime : ℕ
clint_mtime = 0xBFF8
