-- ===== src/Boot/Handover/Opening.antt =====
-- The wait ends: hart 0 comes to open the lock, and then no hart is kept.
use lib_checkpoint.Common.{ℕ, zero, suc, ◌+◌, ◌-◌, ◌≤◌, ◌≡◌, ◌≢◌, refl, arith, update}
use lib_checkpoint.Memory.{Memory, put, load64, store64}
use lib_checkpoint.Memory.Laws.{load64-store64}
use lib_checkpoint.Boot.{Symbols}
use lib_checkpoint.Boot.Handover.{
  clearing, cleared, opened, Later, looking, past, Bss, Step, clear, end_loop, open_lock, pass,
  Reach, here, next, initial,
}
use lib_checkpoint.Boot.Handover.Invariant.{Inv, in_loop, after_loop, after_open, Reach-Inv}

module _ {y : Symbols} where
  before : {s t u : Bss} → Step y s t → Reach y t u → Reach y s u
  before st here = next here st
  before st (next r st') = next (before st r) st'

  both : {s t u : Bss} → Reach y s t → Reach y t u → Reach y s u
  both r here = r
  both r (next q st) = next (both r q) st

module _ (y : Symbols) where
  -- A state after `s` in which the lock is open.
  abbrev IsOpening : Bss → Type 0
  IsOpening s = (t : Bss) × Reach y s t × (load64 t.mem y.bss_lock ≢ 0)

  opens_now : (s : Bss) → s.first ≡ cleared → IsOpening s
  opens_now s at = (
    record s { mem = store64 s.mem y.bss_lock 1; first = opened },
    next here (open_lock s at),
    λ shut. omega (arith, load64-store64 s.mem y.bss_lock 1 (omega arith)),
  )

  -- `left` bytes are still to be cleared.
  opens_later :
      (left i : ℕ) (s : Bss) → s.first ≡ clearing i → y.s_bss + i + left ≡ y.e_bss → IsOpening s
  opens_later zero i s at bytes =
      let (t, r, word) = opens_now (record s { first = cleared }) refl in
      (t, before (end_loop s i at (omega arith)) r, word)
  opens_later (suc left) i s at bytes =
      let s' : Bss = record s { mem = put s.mem (y.s_bss + i) 0; first = clearing (i + 1) } in
      let (t, r, word) = opens_later left (i + 1) s' refl (omega arith) in
      (t, before (clear s i at (omega arith)) r, word)

  opens : {m : Memory} (s : Bss) → Inv y m s → IsOpening s
  opens s (in_loop i at le same out) = opens_later (y.e_bss - (y.s_bss + i)) i s at (omega arith)
  opens s (after_loop at same out) = opens_now s at
  opens s (after_open at one) = (s, here, λ shut. omega arith)

  passes :
      (s : Bss) (i : ℕ) (at : Later)
      → s.later i ≡ at
      → load64 s.mem y.bss_lock ≢ 0
      → (t : Bss) × Reach y s t × (t.later i ≡ past)
  passes s i past at open_word = (s, here, at)
  passes s i looking at open_word =
      (record s { later = update s.later i past }, next here (pass s i at open_word), ground arith)

-- If the word of the lock is zero at the start, then from every state that the harts reach, some
-- further accesses bring any chosen hart past the wait.
pub wait_ends :
    (y : Symbols) (m : Memory) (s : Bss) (i : ℕ)
    → load64 m y.bss_lock ≡ 0
    → y.s_bss ≤ y.e_bss
    → Reach y (initial m) s
    → (t : Bss) × Reach y s t × (t.later i ≡ past)
wait_ends y m s i shut le r =
    let (t, r', word) = opens y s (Reach-Inv y m shut le r) in
    let (u, r'', gone) = passes y t i (t.later i) refl word in (u, both r' r'', gone)
