-- ===== src/Utils/Tests.antt =====
-- The routines of utils.c on a memory in which every byte is its own address, cut to a byte.
use lib_checkpoint.Common.{◌%◌, ◌^◌, ◌≡◌, refl}
use lib_checkpoint.Memory.{Memory}
use lib_checkpoint.Utils.{clear_loop, clear_bss, copy_loop, memcpy, set_loop, memset}

abbrev counted_memory : Memory
counted_memory a = a % 2 ^ 8

-- Four bytes copied one down, over themselves; a fill with a value of more than a byte.
copy_test :
    (memcpy 9 10 4 counted_memory 12 ≡ 13)
    × (memcpy 9 10 4 counted_memory 13 ≡ 13)
    × (memset 16 0x1ff 8 counted_memory 23 ≡ 0xff)
    × (clear_bss 16 24 counted_memory 24 ≡ 24)
unfolding memcpy copy_loop memset set_loop clear_bss clear_loop
copy_test = (refl, refl, refl, refl)
