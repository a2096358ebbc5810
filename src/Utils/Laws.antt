-- ===== src/Utils/Laws.antt =====
-- What `clear_bss`, `memset` and `memcpy` leave in memory, at every address.
use lib_checkpoint.Common.{
  ℕ, Bool, zero, suc, ◌+◌, ◌-◌, ◌%◌, ◌^◌, ◌≤◌, ◌<◌, ◌≡◌, ◌⊎◌, ◌&&◌, arith, ltb, leb, if◌then◌else◌,
}
use lib_checkpoint.Memory.{Memory, put}
use lib_checkpoint.Utils.{clear_loop, clear_bss, copy_loop, memcpy, set_loop, memset}

-- `j` is one of the `n` addresses from `a` on
abbrev pub in_range : ℕ → ℕ → ℕ → Bool
in_range a n j = leb a j && ltb j (a + n)

set_loop_lem :
    (left i dst value : ℕ) (m : Memory) (j : ℕ)
    → set_loop left i dst value m j ≡ (if in_range (dst + i) left j then value % 2 ^ 8 else m j)
unfolding set_loop
set_loop_lem zero i dst value m j = ground arith
set_loop_lem (suc left) i dst value m j =
    ground (arith, set_loop_lem left (i + 1) dst value (put m (dst + i) value) j)

clear_loop_lem :
    (left i bss_start : ℕ) (m : Memory) (j : ℕ)
    → clear_loop left i bss_start m j ≡ (if in_range (bss_start + i) left j then 0 else m j)
unfolding clear_loop
clear_loop_lem zero i bss_start m j = ground arith
clear_loop_lem (suc left) i bss_start m j =
    ground (arith, clear_loop_lem left (i + 1) bss_start (put m (bss_start + i) 0) j)

-- `memset` writes the value, cut to a byte, at the `size` addresses from `dst` on and nowhere else.
pub memset_lem :
    (dst value size : ℕ) (m : Memory) (j : ℕ)
    → memset dst value size m j ≡ (if in_range dst size j then value % 2 ^ 8 else m j)
unfolding memset
memset_lem dst value size m j = ground (arith, set_loop_lem size 0 dst value m j)

-- `clear_bss` zeroes the addresses from `s_bss` up to `e_bss`, the last excluded, and no other.
pub clear_bss_lem :
    (s_bss e_bss : ℕ) (m : Memory) (j : ℕ)
    → s_bss ≤ e_bss
    → clear_bss s_bss e_bss m j ≡ (if leb s_bss j && ltb j e_bss then 0 else m j)
unfolding clear_bss
clear_bss_lem s_bss e_bss m j h = ground (arith, clear_loop_lem (e_bss - s_bss) 0 s_bss m j)

abbrev pub IsBytes : Memory → Type 0
IsBytes m = (j : ℕ) → m j < 2 ^ 8

put-IsBytes : (m : Memory) (a v : ℕ) → IsBytes m → IsBytes (put m a v)
put-IsBytes m a v bytes j = ground (arith, bytes j)

copy_loop_lem :
    (left i dst src : ℕ) (m : Memory) (j : ℕ)
    → IsBytes m
    → (dst ≤ src) ⊎ (src + i + left ≤ dst)
    → copy_loop left i dst src m j
      ≡ (if in_range (dst + i) left j then m (src + (j - dst)) else m j)
unfolding copy_loop
copy_loop_lem zero i dst src m j bytes apart = ground arith
copy_loop_lem (suc left) i dst src m j bytes apart = ground (
  arith,
  bytes (src + i),
  copy_loop_lem left (i + 1) dst src (put m (dst + i) (m (src + i))) j (put-IsBytes m _ _ bytes),
)

-- Where the destination does not begin inside the source, `memcpy` leaves a copy of the `size`
-- bytes from `src` on at `dst`, also where the two overlap, and changes no other byte.
pub memcpy_lem :
    (dst src size : ℕ) (m : Memory) (j : ℕ)
    → IsBytes m
    → (dst ≤ src) ⊎ (src + size ≤ dst)
    → memcpy dst src size m j ≡ (if in_range dst size j then m (src + (j - dst)) else m j)
unfolding memcpy
memcpy_lem dst src size m j bytes apart = ground (arith, copy_loop_lem size 0 dst src m j bytes)

clear_loop-lt :
    (left i bss_start : ℕ) (m : Memory)
    → ((j : ℕ) → m j < 2 ^ 8)
    → (j : ℕ) → clear_loop left i bss_start m j < 2 ^ 8
unfolding clear_loop
clear_loop-lt zero i bss_start m ok j = ok j
clear_loop-lt (suc left) i bss_start m ok j =
    clear_loop-lt left (i + 1) bss_start (put m (bss_start + i) 0) (λ k. ground (arith, ok k)) j

-- Cleared memory is memory of bytes.
pub clear_bss-lt :
    (s_bss e_bss : ℕ) (m : Memory)
    → ((j : ℕ) → m j < 2 ^ 8)
    → (j : ℕ) → clear_bss s_bss e_bss m j < 2 ^ 8
unfolding clear_bss
clear_bss-lt s_bss e_bss m ok = clear_loop-lt (e_bss - s_bss) 0 s_bss m ok
