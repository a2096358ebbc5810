-- ===== src/Utils.antt =====
-- src/utils.c: the loops over bytes. A loop takes the rounds that are left and its index `i`.
pub mod Laws
pub mod Tests
use lib_checkpoint.Common.{ℕ, zero, suc, ◌+◌, ◌-◌}
use lib_checkpoint.Memory.{Memory, put}

clear_loop : ℕ → ℕ → ℕ → Memory → Memory
clear_loop zero i bss_start m = m
clear_loop (suc left) i bss_start m = clear_loop left (i + 1) bss_start (put m (bss_start + i) 0)

-- `s_bss` and `e_bss` are symbols of restore.lds.
unfoldable pub clear_bss : ℕ → ℕ → Memory → Memory
unfolding clear_loop
clear_bss s_bss e_bss m = clear_loop (e_bss - s_bss) 0 s_bss m

copy_loop : ℕ → ℕ → ℕ → ℕ → Memory → Memory
copy_loop zero i dst src m = m
copy_loop (suc left) i dst src m = copy_loop left (i + 1) dst src (put m (dst + i) (m (src + i)))

unfoldable pub memcpy : ℕ → ℕ → ℕ → Memory → Memory
unfolding copy_loop
memcpy dst src size m = copy_loop size 0 dst src m

set_loop : ℕ → ℕ → ℕ → ℕ → Memory → Memory
set_loop zero i dst value m = m
set_loop (suc left) i dst value m = set_loop left (i + 1) dst value (put m (dst + i) value)

unfoldable pub memset : ℕ → ℕ → ℕ → Memory → Memory
unfolding set_loop
memset dst value size m = set_loop size 0 dst value m
