-- ===== src/Hart/Range.antt =====
-- The ranges of the machine: a byte of memory is below 2^8, a register below 2^64. The model keeps
-- numbers; here is what makes them bytes and words.
use lib_checkpoint.Common.{ℕ, ◌+◌, ◌/◌, ◌^◌, ◌<◌, arith, List, All, update}
use lib_checkpoint.Memory.{Memory, put, load32, load64, store32, store64}
use lib_checkpoint.Hart.{CsrFile, Machine}

abbrev pub AreBytes : Memory → Type 0
AreBytes m = (j : ℕ) → m j < 2 ^ 8

abbrev pub AreWords : (ℕ → ℕ) → Type 0
AreWords r = (i : ℕ) → r i < 2 ^ 64

abbrev pub AreVectors : (ℕ → List ℕ) → Type 0
AreVectors v = (i : ℕ) → All (λ (b : ℕ). b < 2 ^ 8) (v i)

pub record IsInRange {F : CsrFile} (s : Machine F) : Type 0 where
  pub bytes : AreBytes s.mem
  pub gprs : AreWords s.gpr
  pub fprs : AreWords s.fpr
  pub vectors : AreVectors s.vreg

load32-lt : (m : Memory) (a : ℕ) → AreBytes m → load32 m a < 2 ^ 32
unfolding load32
load32-lt m a ok = omega (arith, ok a, ok (a + 1), ok (a + 2), ok (a + 3))

pub load64-lt : (m : Memory) (a : ℕ) → AreBytes m → load64 m a < 2 ^ 64
unfolding load64
load64-lt m a ok = omega (arith, load32-lt m a ok, load32-lt m (a + 4) ok)

pub put-AreBytes : (m : Memory) (a v : ℕ) → AreBytes m → AreBytes (put m a v)
put-AreBytes m a v ok j = ground (arith, ok j)

pub store32-AreBytes : (m : Memory) (a v : ℕ) → AreBytes m → AreBytes (store32 m a v)
unfolding store32
store32-AreBytes m a v ok j = ground (arith, ok j)

pub store64-AreBytes : (m : Memory) (a v : ℕ) → AreBytes m → AreBytes (store64 m a v)
unfolding store64
store64-AreBytes m a v ok =
    store32-AreBytes (store32 m a v) (a + 4) (v / 2 ^ 32) (store32-AreBytes m a v ok)

pub update-AreWords : (r : ℕ → ℕ) (i v : ℕ) → AreWords r → v < 2 ^ 64 → AreWords (update r i v)
update-AreWords r i v ok small j = ground (arith, ok j)
