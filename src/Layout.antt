-- ===== src/Layout.antt =====
-- include/checkpoint.pb.h, include/cpt_default_values.h and src/decode_restore.c: the header of a
-- checkpoint, the layout of one core's state, the built-in layouts, and the layout of core `cpu_id`
-- in a checkpoint of several cores. Every field is a `uint64_t`, so sums wrap at 2^64.
pub mod Regions
pub mod Fields
pub mod Tests
use lib_checkpoint.Common.{ℕ, ◌+◌, ◌*◌, ◌%◌, ◌^◌}

pub record CheckpointHeader : Type 0 where
  pub magic_number : ℕ
  pub cpt_offset : ℕ
  pub cpu_num : ℕ
  pub single_core_size : ℕ
  pub version : ℕ

-- `single_core_rvgc_rvv_rvh_memlayout`
pub record Memlayout : Type 0 where
  pub magic_number_cpt_addr : ℕ
  pub pc_cpt_addr : ℕ
  pub mode_cpt_addr : ℕ
  pub mtime_cpt_addr : ℕ
  pub mtime_cmp_cpt_addr : ℕ
  pub misc_done_cpt_addr : ℕ
  pub misc_reserve : ℕ
  pub int_reg_cpt_addr : ℕ
  pub int_reg_done : ℕ
  pub float_reg_cpt_addr : ℕ
  pub float_reg_done : ℕ
  pub csr_reg_cpt_addr : ℕ
  pub csr_reg_done : ℕ
  pub csr_reserve : ℕ
  pub vector_reg_cpt_addr : ℕ
  pub vector_reg_done : ℕ

-- `checkpoint_header header = {0}`
abbrev pub header_init_zero : CheckpointHeader
header_init_zero = record {
  magic_number = 0;
  cpt_offset = 0;
  cpu_num = 0;
  single_core_size = 0;
  version = 0;
}

-- `single_core_rvgc_rvv_rvh_memlayout memlayout = {0}`
abbrev pub memlayout_init_zero : Memlayout
memlayout_init_zero = record {
  magic_number_cpt_addr = 0;
  pc_cpt_addr = 0;
  mode_cpt_addr = 0;
  mtime_cpt_addr = 0;
  mtime_cmp_cpt_addr = 0;
  misc_done_cpt_addr = 0;
  misc_reserve = 0;
  int_reg_cpt_addr = 0;
  int_reg_done = 0;
  float_reg_cpt_addr = 0;
  float_reg_done = 0;
  csr_reg_cpt_addr = 0;
  csr_reg_done = 0;
  csr_reserve = 0;
  vector_reg_cpt_addr = 0;
  vector_reg_done = 0;
}

abbrev pub default_rvgc_v_h_memlayout : Memlayout
default_rvgc_v_h_memlayout = record {
  magic_number_cpt_addr = 0x800ECDB0;
  pc_cpt_addr = 0x800ECDB8;
  mode_cpt_addr = 0x800ECDC0;
  mtime_cpt_addr = 0x800ECDC8;
  mtime_cmp_cpt_addr = 0x800ECDD0;
  misc_done_cpt_addr = 0x800ECDD8;
  misc_reserve = 0x800ECDE0;
  int_reg_cpt_addr = 0x800EDDE0;
  int_reg_done = 0x800EDEE0;
  float_reg_cpt_addr = 0x800EDEE8;
  float_reg_done = 0x800EDFE8;
  csr_reg_cpt_addr = 0x800EDFF0;
  csr_reg_done = 0x800F5FF0;
  csr_reserve = 0x800F5FF8;
  vector_reg_cpt_addr = 0x800FDFF8;
  vector_reg_done = 0x800FFFF8;
}

abbrev pub default_qemu_memlayout : Memlayout
default_qemu_memlayout = record {
  magic_number_cpt_addr = 0xECDB0;
  pc_cpt_addr = 0xECDB8;
  mode_cpt_addr = 0xECDC0;
  mtime_cpt_addr = 0xECDC8;
  mtime_cmp_cpt_addr = 0xECDD0;
  misc_done_cpt_addr = 0xECDD8;
  misc_reserve = 0xECDE0;
  int_reg_cpt_addr = 0xEDDE0;
  int_reg_done = 0xEDEE0;
  float_reg_cpt_addr = 0xEDEE8;
  float_reg_done = 0xEDFE8;
  csr_reg_cpt_addr = 0xEDFF0;
  csr_reg_done = 0xF5FF0;
  csr_reserve = 0xF5FF8;
  vector_reg_cpt_addr = 0xFDFF8;
  vector_reg_done = 0xFFFF8;
}

abbrev pub default_multicore_layout : Memlayout
default_multicore_layout = record {
  magic_number_cpt_addr = 0x0;
  pc_cpt_addr = 0x8;
  mode_cpt_addr = 0x10;
  mtime_cpt_addr = 0x18;
  mtime_cmp_cpt_addr = 0x20;
  misc_done_cpt_addr = 0x28;
  misc_reserve = 0x30;
  int_reg_cpt_addr = 0x1000;
  int_reg_done = 0x1128;
  float_reg_cpt_addr = 0x1130;
  float_reg_done = 0x1230;
  csr_reg_cpt_addr = 0x1238;
  csr_reg_done = 0x9238;
  csr_reserve = 0x9240;
  vector_reg_cpt_addr = 0x11240;
  vector_reg_done = 0x13240;
}

-- `sizeof` of the two structs: five and sixteen fields of eight bytes
abbrev pub multicore_default_header : CheckpointHeader
multicore_default_header = record {
  magic_number = 0xdeadbeef;
  cpt_offset = 5 * 8 + 16 * 8;
  cpu_num = 1;
  single_core_size = 1 * 1024 * 1024;
  version = 0x20240205;
}

-- An address in the region of a core: `memlayout->f + offset`.
abbrev pub rebase : ℕ → ℕ → ℕ
rebase offset f = (f + offset) % 2 ^ 64

unfoldable pub core_offset : ℕ → ℕ → ℕ → ℕ
core_offset base_addr single_core_size cpu_id = (cpu_id * single_core_size + base_addr) % 2 ^ 64

unfoldable pub get_core_memlayout : ℕ → ℕ → ℕ → Memlayout → Memlayout
get_core_memlayout base_addr single_core_size cpu_id l =
    let offset = core_offset base_addr single_core_size cpu_id in
    record {
      magic_number_cpt_addr = rebase offset l.magic_number_cpt_addr;
      pc_cpt_addr = rebase offset l.pc_cpt_addr;
      mode_cpt_addr = rebase offset l.mode_cpt_addr;
      mtime_cpt_addr = rebase offset l.mtime_cpt_addr;
      mtime_cmp_cpt_addr = rebase offset l.mtime_cmp_cpt_addr;
      misc_done_cpt_addr = rebase offset l.misc_done_cpt_addr;
      misc_reserve = rebase offset l.misc_reserve;
      int_reg_cpt_addr = rebase offset l.int_reg_cpt_addr;
      int_reg_done = rebase offset l.int_reg_done;
      float_reg_cpt_addr = rebase offset l.float_reg_cpt_addr;
      float_reg_done = rebase offset l.float_reg_done;
      csr_reg_cpt_addr = rebase offset l.csr_reg_cpt_addr;
      csr_reg_done = rebase offset l.csr_reg_done;
      csr_reserve = rebase offset l.csr_reserve;
      vector_reg_cpt_addr = rebase offset l.vector_reg_cpt_addr;
      vector_reg_done = rebase offset l.vector_reg_done;
    }
