-- ===== src/Memory/Laws.antt =====
-- A load gives back what was stored at the same place, and does not see a store elsewhere.
use lib_checkpoint.Common.{ℕ, ◌+◌, ◌/◌, ◌%◌, ◌^◌, ◌≤◌, ◌<◌, ◌≡◌, ◌⊎◌, arith, ◌∙◌}
use lib_checkpoint.Memory.{Memory, load32, load64, store32, store64}

-- A store of four bytes changes none outside them.
pub store32_outside : (m : Memory) (a v j : ℕ) → (j < a) ⊎ (a + 4 ≤ j) → store32 m a v j ≡ m j
unfolding store32
store32_outside m a v j h = ground arith

pub load32-store32 : (m : Memory) (a v : ℕ) → load32 (store32 m a v) a ≡ v % 2 ^ 32
unfolding load32 store32
load32-store32 m a v = ground arith

pub load32-store32_apart :
    (m : Memory) (a v b : ℕ) → (b + 4 ≤ a) ⊎ (a + 4 ≤ b) → load32 (store32 m a v) b ≡ load32 m b
unfolding load32
load32-store32_apart m a v b h = ground (
  arith,
  store32_outside m a v b,
  store32_outside m a v (b + 1),
  store32_outside m a v (b + 2),
  store32_outside m a v (b + 3),
)

pub load64-store32_apart :
    (m : Memory) (a v b : ℕ) → (b + 8 ≤ a) ⊎ (a + 4 ≤ b) → load64 (store32 m a v) b ≡ load64 m b
unfolding load64
load64-store32_apart m a v b h =
    ground (arith, load32-store32_apart m a v b, load32-store32_apart m a v (b + 4))

pub store64_outside : (m : Memory) (a v j : ℕ) → (j < a) ⊎ (a + 8 ≤ j) → store64 m a v j ≡ m j
unfolding store64
store64_outside m a v j h =
    ground (arith, store32_outside (store32 m a v) (a + 4) (v / 2 ^ 32) j, store32_outside m a v j)

-- A stored double word is read back, and a store leaves the double words beside it alone.
pub load64-store64 : (m : Memory) (a v : ℕ) → v < 2 ^ 64 → load64 (store64 m a v) a ≡ v
unfolding load64 store64
load64-store64 m a v h = omega (arith, low, high)
  where
    low : load32 (store32 (store32 m a v) (a + 4) (v / 2 ^ 32)) a ≡ v % 2 ^ 32
    low =
        load32-store32_apart (store32 m a v) (a + 4) (v / 2 ^ 32) a (omega arith)
        ∙ load32-store32 m a v

    high : load32 (store32 (store32 m a v) (a + 4) (v / 2 ^ 32)) (a + 4) ≡ v / 2 ^ 32 % 2 ^ 32
    high = load32-store32 (store32 m a v) (a + 4) (v / 2 ^ 32)

pub load64-store64_apart :
    (m : Memory) (a v b : ℕ) → (b + 8 ≤ a) ⊎ (a + 8 ≤ b) → load64 (store64 m a v) b ≡ load64 m b
unfolding store64
load64-store64_apart m a v b h = ground (
  arith,
  load64-store32_apart (store32 m a v) (a + 4) (v / 2 ^ 32) b,
  load64-store32_apart m a v b,
)

pub load32-store64_apart :
    (m : Memory) (a v b : ℕ) → (b + 4 ≤ a) ⊎ (a + 8 ≤ b) → load32 (store64 m a v) b ≡ load32 m b
unfolding load32
load32-store64_apart m a v b h = ground (
  arith,
  store64_outside m a v b,
  store64_outside m a v (b + 1),
  store64_outside m a v (b + 2),
  store64_outside m a v (b + 3),
)
