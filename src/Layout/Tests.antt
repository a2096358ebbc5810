-- ===== src/Layout/Tests.antt =====
-- The layout of a checkpoint with several cores, at the address where QEMU puts it.
use lib_checkpoint.Common.{ℕ, ◌≡◌, refl, arith}
use lib_checkpoint.Layout.{Memlayout, default_multicore_layout, core_offset, get_core_memlayout}
use lib_checkpoint.Layout.Regions.{IsLaidOut}

abbrev core : ℕ → Memlayout
core cpu_id = get_core_memlayout 0x800000a8 0x100000 cpu_id default_multicore_layout

-- The built-in layout fits the size of a core in the built-in header.
pub multicore-IsLaidOut : IsLaidOut 0x100000 default_multicore_layout
multicore-IsLaidOut = omega arith

layout_test : (core 3).int_reg_cpt_addr ≡ 0x803010a8
unfolding get_core_memlayout core_offset
layout_test = refl
