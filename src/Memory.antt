-- ===== src/Memory.antt =====
-- The memory that the restorer works on: a byte at each physical address, devices included, with
-- the little-endian accesses that the C and the assembly code make (src/*.c, src/restore.S).
pub mod Laws
use lib_checkpoint.Common.{ℕ, ◌+◌, ◌*◌, ◌/◌, ◌%◌, ◌^◌, ◌==◌, if◌then◌else◌}

abbrev pub Memory : Type 0
Memory = ℕ → ℕ

-- a `char` store: the value is cut to a byte
abbrev pub put : Memory → ℕ → ℕ → Memory
put m a v j = if j == a then v % 2 ^ 8 else m j

unfoldable pub load32 : Memory → ℕ → ℕ
load32 m a = m a + 2 ^ 8 * m (a + 1) + 2 ^ 16 * m (a + 2) + 2 ^ 24 * m (a + 3)

unfoldable pub load64 : Memory → ℕ → ℕ
unfolding load32
load64 m a = load32 m a + 2 ^ 32 * load32 m (a + 4)

unfoldable pub store32 : Memory → ℕ → ℕ → Memory
store32 m a v =
    put (put (put (put m a v) (a + 1) (v / 2 ^ 8)) (a + 2) (v / 2 ^ 16)) (a + 3) (v / 2 ^ 24)

unfoldable pub store64 : Memory → ℕ → ℕ → Memory
unfolding store32
store64 m a v = store32 (store32 m a v) (a + 4) (v / 2 ^ 32)
