-- ===== src/Boot/Handover/Invariant.antt =====
-- No hart is past the wait before hart 0 has cleared the bss, which it does as `clear_bss` alone.
use lib_checkpoint.Common.{
  ℕ, ◌+◌, ◌≤◌, ◌<◌, ◌≡◌, ◌≢◌, ◌⊎◌, ◌∙◌, refl, arith, ltb, leb, ◌&&◌, if◌then◌else◌, sym,
}
use lib_checkpoint.Memory.{Memory, put, load32, load64}
use lib_checkpoint.Memory.Laws.{load64-store64}
use lib_checkpoint.Utils.{clear_bss}
use lib_checkpoint.Utils.Laws.{clear_bss_lem}
use lib_checkpoint.Boot.{Symbols}
use lib_checkpoint.Boot.Handover.{
  clearing, cleared, opened, looking, past, Bss, IsRunning, first_runs, later_runs, Step, clear,
  end_loop, open_lock, wait, pass, use_memory, Reach, here, next, initial,
}

-- Memory with the bytes from `lo` on, up to `hi`, cleared.
abbrev pub zeroed : ℕ → ℕ → Memory → Memory
zeroed lo hi m j = if leb lo j && ltb j hi then 0 else m j

module _ (y : Symbols) (m : Memory) where
  -- What holds at each place of hart 0.
  pub data Inv (s : Bss) : Type 0 where
    in_loop :
        (i : ℕ)
        → s.first ≡ clearing i
        → y.s_bss + i ≤ y.e_bss
        → ((j : ℕ) → s.mem j ≡ zeroed y.s_bss (y.s_bss + i) m j)
        → ((i : ℕ) → s.later i ≡ looking)
        → Inv s
    after_loop :
        s.first ≡ cleared
        → ((j : ℕ) → s.mem j ≡ zeroed y.s_bss y.e_bss m j)
        → ((i : ℕ) → s.later i ≡ looking)
        → Inv s
    after_open : s.first ≡ opened → load64 s.mem y.bss_lock ≡ 1 → Inv s

load64-zeroed :
    (lo hi : ℕ) (m mem : Memory) (a : ℕ)
    → ((j : ℕ) → mem j ≡ zeroed lo hi m j)
    → load64 m a ≡ 0
    → load64 mem a ≡ 0
unfolding load64 load32
load64-zeroed lo hi m mem a same zero_word = omega (
  arith,
  small a,
  small (a + 1),
  small (a + 2),
  small (a + 3),
  small (a + 4),
  small (a + 4 + 1),
  small (a + 4 + 2),
  small (a + 4 + 3),
)
  where
    small : (j : ℕ) → mem j ≤ m j
    small j = rw (same j) (ground arith)

load64-put_outside :
    (m : Memory) (a j v : ℕ) → (j < a) ⊎ (a + 8 ≤ j) → load64 (put m j v) a ≡ load64 m a
unfolding load64 load32
load64-put_outside m a j v off = ground arith

module _ (y : Symbols) (m : Memory) (shut : load64 m y.bss_lock ≡ 0) where
  nobody_runs : {s : Bss} → s.first ≢ opened → ((i : ℕ) → s.later i ≡ looking) → ¬ IsRunning s
  nobody_runs closed out (first_runs e) = closed e
  nobody_runs closed out (later_runs i e) = ground (arith, out i)

  Step-Inv : {s t : Bss} → Step y s t → Inv y m s → Inv y m t
  Step-Inv (clear s i at lt) (in_loop k at' le same out) =
      in_loop (i + 1) refl (omega arith) (λ j. ground (arith, same j)) out
  Step-Inv (clear s i at lt) (after_loop at' same out) = absurd (ground arith)
  Step-Inv (clear s i at lt) (after_open at' word) = absurd (ground arith)
  Step-Inv (end_loop s i at le) (in_loop k at' le' same out) =
      after_loop refl (λ j. ground (arith, same j)) out
  Step-Inv (end_loop s i at le) (after_loop at' same out) = absurd (ground arith)
  Step-Inv (end_loop s i at le) (after_open at' word) = absurd (ground arith)
  Step-Inv (open_lock s at) inv = after_open refl (load64-store64 s.mem y.bss_lock 1 (omega arith))
  Step-Inv (wait s i at word) inv = inv
  Step-Inv (pass s i at word) (in_loop k at' le same out) =
      absurd (word (load64-zeroed y.s_bss (y.s_bss + k) m s.mem y.bss_lock same shut))
  Step-Inv (pass s i at word) (after_loop at' same out) =
      absurd (word (load64-zeroed y.s_bss y.e_bss m s.mem y.bss_lock same shut))
  Step-Inv (pass s i at word) (after_open at' one) = after_open at' one
  Step-Inv (use_memory s j v running off) (in_loop k at' le same out) =
      absurd (nobody_runs (λ e. ground arith) out running)
  Step-Inv (use_memory s j v running off) (after_loop at' same out) =
      absurd (nobody_runs (λ e. ground arith) out running)
  Step-Inv (use_memory s j v running off) (after_open at' one) =
      after_open at' (load64-put_outside s.mem y.bss_lock j v off ∙ one)

  pub Reach-Inv : {s : Bss} → y.s_bss ≤ y.e_bss → Reach y (initial m) s → Inv y m s
  Reach-Inv le here = in_loop 0 refl (omega arith) (λ j. ground arith) (λ i. refl)
  Reach-Inv le (next r st) = Step-Inv st (Reach-Inv le r)

  -- If the word of the lock is zero at the start, hart 0 has cleared the bss and set the lock before
  -- any other hart is past the wait.
  pub none_runs_early :
      (s : Bss) (i : ℕ)
      → y.s_bss ≤ y.e_bss
      → Reach y (initial m) s
      → s.later i ≡ past
      → s.first ≡ opened
  none_runs_early s i le r gone = elim (Reach-Inv le r) [
    | in_loop k at le' same out ↦ absurd (ground (arith, out i))
    | after_loop at same out ↦ absurd (ground (arith, out i))
    | after_open at one ↦ at
  ]

  -- If the word of the lock is zero at the start, memory before hart 0 sets the lock is what
  -- `clear_bss` alone makes of it, at every address, whatever the other harts do.
  pub handover_clears :
      (s : Bss) (j : ℕ)
      → y.s_bss ≤ y.e_bss
      → Reach y (initial m) s
      → s.first ≡ cleared
      → s.mem j ≡ clear_bss y.s_bss y.e_bss m j
  handover_clears s j le r at = elim (Reach-Inv le r) [
    | in_loop k at' le' same out ↦ absurd (ground arith)
    | after_loop at' same out ↦ same j ∙ sym (clear_bss_lem y.s_bss y.e_bss m j le)
    | after_open at' one ↦ absurd (ground arith)
  ]
