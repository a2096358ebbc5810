-- ===== src/Encoding.antt =====
-- include/encoding.h: the fields of `mstatus` and `misa`, the MATCH and MASK of the two instructions
-- that the restorer writes or expects in a slot, and the numbers of the CSRs.
pub mod Causes
pub mod Csrs
pub mod Declared
pub mod Fields
pub mod Insns
use lib_checkpoint.Common.{ℕ}

abbrev pub mstatus_mie : ℕ
mstatus_mie = 0x00000008

abbrev pub mstatus_mpp : ℕ
mstatus_mpp = 0x00001800

abbrev pub mstatus_fs : ℕ
mstatus_fs = 0x00006000

abbrev pub mstatus_mpv : ℕ
mstatus_mpv = 0x0000008000000000

abbrev pub mstatus_vs_initial : ℕ
mstatus_vs_initial = 0x200

abbrev pub mstatus_vs_clean : ℕ
mstatus_vs_clean = 0x400

abbrev pub mstatus_vs_dirty : ℕ
mstatus_vs_dirty = 0x600

abbrev pub mstatus_fs_initial : ℕ
mstatus_fs_initial = 0x2000

abbrev pub mstatus_fs_clean : ℕ
mstatus_fs_clean = 0x4000

abbrev pub mstatus_fs_dirty : ℕ
mstatus_fs_dirty = 0x6000

abbrev pub misa_v : ℕ
misa_v = 0x200000

abbrev pub misa_h : ℕ
misa_h = 0x80

abbrev pub misa_df : ℕ
misa_df = 0x28

abbrev pub match_jal : ℕ
match_jal = 0x6f

abbrev pub mask_jal : ℕ
mask_jal = 0x7f

abbrev pub match_addi : ℕ
match_addi = 0x13

abbrev pub mask_addi : ℕ
mask_addi = 0x707f

abbrev pub csr_fcsr : ℕ
csr_fcsr = 0x3

abbrev pub csr_mstatus : ℕ
csr_mstatus = 0x300

abbrev pub csr_misa : ℕ
csr_misa = 0x301
