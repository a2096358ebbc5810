-- ===== src/Common/Update.antt =====
-- A function on numbers, changed at one of them.
use lib_checkpoint.Common.Tests.{◌==◌, if◌then◌else◌}
use Prim.Native.Nat.{ℕ}

-- The value at `n` becomes `v`.
abbrev pub update {ℓ} : {A : Type ℓ} → (ℕ → A) → ℕ → A → ℕ → A
update f n v j = if j == n then v else f j
