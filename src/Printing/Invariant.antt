-- ===== src/Printing/Invariant.antt =====
-- The lock of `mt_printf` is not free exactly while one hart is in `vprintf`.
use lib_checkpoint.Common.{update, ℕ, ◌+◌, ◌≤◌, ◌<◌, ◌≡◌, ◌≢◌, ◌⊎◌, inl, refl, arith, List, [], ◌∷◌}
use lib_checkpoint.Common.Sums.{weigh, weigh-update, weight-le-weigh, weigh-const}
use lib_checkpoint.Printing.{
  Message, Port, Pc, between, spinning, trying, printing, access, initial,
}

-- The hart is in `vprintf`.
abbrev pub inside : Pc → ℕ
inside (printing _ _) = 1
inside _ = 0

pub record Inv (n : ℕ) (lock : ℕ) (pc : ℕ → Pc) : Type 0 where
  pub exclusive : ((lock ≡ 0) × (weigh inside n pc ≡ 0)) ⊎ ((lock ≢ 0) × (weigh inside n pc ≡ 1))

module _ (n : ℕ) (pc : ℕ → Pc) (i : ℕ) (lt : i < n) where
  moved :
      (p q : Pc)
      → pc i ≡ p
      → inside p + weigh inside n (update pc i q) ≡ inside q + weigh inside n pc
  moved p q here = rw (← here) (weigh-update inside n pc i q lt)

  held : (p : Pc) → pc i ≡ p → inside p ≤ weigh inside n pc
  held p here = rw (← here) (weight-le-weigh inside n pc i lt)

  pub access-Inv :
      (s : Port) (p : Pc)
      → Inv n s.lock pc
      → pc i ≡ p
      → Inv n (access s p).0.lock (update pc i (access s p).1)
  unfolding access
  access-Inv s (between []) inv here = ground (arith, moved (between []) (between []) here)
  access-Inv s (between (m ∷ ms)) inv here =
      ground (arith, moved (between (m ∷ ms)) (spinning m ms) here)
  access-Inv s (spinning m ms) inv here =
      ground (
        arith,
        moved (spinning m ms) (trying m ms) here,
        moved (spinning m ms) (spinning m ms) here,
      )
  access-Inv s (trying m ms) inv here =
      ground
        (arith, moved (trying m ms) (printing m ms) here, moved (trying m ms) (spinning m ms) here)
  access-Inv s (printing (c ∷ cs) ms) inv here =
      ground (arith, moved (printing (c ∷ cs) ms) (printing cs ms) here)
  access-Inv s (printing [] ms) inv here =
      ground (arith, moved (printing [] ms) (between ms) here, held (printing [] ms) here)

pub open-Inv : (n : ℕ) (calls : ℕ → List Message) → Inv n 0 (initial calls).pc
open-Inv n calls = record {
  exclusive = inl (refl, omega (arith, weigh-const inside 0 n (initial calls).pc (λ _ _. refl)));
}
