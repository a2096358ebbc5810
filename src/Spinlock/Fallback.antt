-- ===== src/Spinlock/Fallback.antt =====
-- include/spinlock.h without atomic instructions (`__riscv_atomic` not defined): each operation is a
-- read and a write, which other harts can come between.
use lib_checkpoint.Common.{ℕ, ◌+◌, ◌%◌, ◌^◌, ◌≡◌, refl, ◌==◌, if◌then◌else◌, bit_or}
use lib_checkpoint.Spinlock

-- The two accesses of an operation: `res` is the word that the hart reads, and `now` the word when it
-- writes, which is `res` still if no other hart has written.
abbrev pub atomic_binop : (ℕ → ℕ) → ℕ → ℕ → ℕ × ℕ
atomic_binop op res now = (op res, res)

abbrev pub add : ℕ → ℕ → ℕ → ℕ × ℕ
add inc = atomic_binop (λ res. (res + inc) % 2 ^ 64)

abbrev pub or : ℕ → ℕ → ℕ → ℕ × ℕ
or inc = atomic_binop (λ res. bit_or res inc)

abbrev pub swap : ℕ → ℕ → ℕ → ℕ × ℕ
swap swp = atomic_binop (λ res. swp)

-- This one writes only where the value that it has read is `cmp`.
abbrev pub cas : ℕ → ℕ → ℕ → ℕ → ℕ × ℕ
cas cmp swp res now = (if res == cmp then swp else now, res)

-- With no write of another hart in between, each gives what the atomic instruction gives.
alone_agrees :
    (value x y : ℕ)
    → (add x value value ≡ Spinlock.atomic_add value x)
      × (or x value value ≡ Spinlock.atomic_or value x)
      × (swap x value value ≡ Spinlock.atomic_swap value x)
      × (cas x y value value ≡ Spinlock.atomic_cas value x y)
alone_agrees value x y = (refl, refl, refl, refl)

-- Where two harts have both read a free lock, both writes leave it taken, and both harts are told
-- that it was free.
both_take :
    (swap Spinlock.taken 0 0 ≡ (Spinlock.taken, 0))
    × (swap Spinlock.taken 0 Spinlock.taken ≡ (Spinlock.taken, 0))
both_take = (refl, refl)
