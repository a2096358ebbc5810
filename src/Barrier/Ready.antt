-- ===== src/Barrier/Ready.antt =====
-- While some hart has not passed the meeting, the next access of some hart brings it nearer to the
-- end: it holds the lock, or finds it free, or has the gate to open, or finds it open.
use lib_checkpoint.Common.{ℕ, ◌<◌, ◌≡◌, refl, arith, dec_lt}
use lib_checkpoint.Restore.{must_wait}
use lib_checkpoint.Barrier.{
  Shared, Pc, spinning, trying, locked, counted, behind, ahead, waiting, leading, restoring, passed,
  access,
}
use lib_checkpoint.Common.Sums.{weigh, weight-le-weigh, weigh-find, weigh-add, weigh-const}
use lib_checkpoint.Barrier.Invariant.{arrived, testing, guarding, leader, Inv}
use lib_checkpoint.Barrier.Safety.{holding}

-- How many accesses a hart still has to make, if none fails.
abbrev pub rank : Pc → ℕ
rank spinning = 8
rank trying = 7
rank locked = 6
rank counted = 5
rank behind = 4
rank ahead = 4
rank leading = 3
rank restoring = 2
rank waiting = 1
rank passed = 0

-- The next access of a hart succeeds.
abbrev pub IsReady : Shared → Pc → Type 0
IsReady m spinning = m.lock ≡ 0
IsReady m trying = m.lock ≡ 0
IsReady m waiting = m.release ≡ 1
IsReady m passed = ⊥
IsReady m _ = Unit

pub access-rank : (n : ℕ) (m : Shared) (p : Pc) → IsReady m p → rank (access n m p).1 < rank p
unfolding access must_wait
access-rank n m spinning r = ground arith
access-rank n m trying r = ground arith
access-rank n m locked r = omega arith
access-rank n m counted r = ground arith
access-rank n m behind r = omega arith
access-rank n m ahead r = omega arith
access-rank n m waiting r = ground arith
access-rank n m leading r = omega arith
access-rank n m restoring r = omega arith
access-rank n m passed r = absurd r

-- The hart is at the acquisition of the lock.
abbrev pub early : Pc → ℕ
early spinning = 1
early trying = 1
early _ = 0

holding-IsReady : (m : Shared) (p : Pc) → 0 < holding p → IsReady m p
holding-IsReady m locked h = tt
holding-IsReady m counted h = tt
holding-IsReady m behind h = tt
holding-IsReady m ahead h = tt
holding-IsReady m _ h = absurd (omega arith)

early-IsReady : (m : Shared) (p : Pc) → m.lock ≡ 0 → 0 < early p → IsReady m p
early-IsReady m spinning free h = free
early-IsReady m trying free h = free
early-IsReady m _ free h = absurd (omega arith)

leader-IsReady : (m : Shared) (p : Pc) → 0 < leader p → IsReady m p
leader-IsReady m ahead h = tt
leader-IsReady m leading h = tt
leader-IsReady m restoring h = tt
leader-IsReady m _ h = absurd (omega arith)

-- A hart that is neither early nor behind the lock nor a leader, and has not passed, waits.
waiting-IsReady :
    (m : Shared) (p : Pc)
    → m.release ≡ 1
    → holding p ≡ 0
    → early p ≡ 0
    → leader p ≡ 0
    → 0 < rank p
    → IsReady m p
waiting-IsReady m waiting open_gate h e l pos = open_gate
waiting-IsReady m spinning open_gate h e l pos = absurd (omega arith)
waiting-IsReady m _ open_gate h e l pos = absurd (omega arith)

late_arrived : (p : Pc) → holding p ≡ 0 → early p ≡ 0 → arrived p ≡ 1
late_arrived spinning h e = absurd (omega arith)
late_arrived trying h e = absurd (omega arith)
late_arrived locked h e = absurd (omega arith)
late_arrived _ h e = refl

module _ {n : ℕ} {m : Shared} {pc : ℕ → Pc} (inv : Inv n m pc) where
  abbrev pub Someone : Type 0
  Someone = (i : ℕ) × (i < n) × IsReady m (pc i)

  -- With the lock free and nobody at it, every hart has arrived.
  all_arrived : weigh holding n pc ≡ 0 → weigh early n pc ≡ 0 → weigh arrived n pc ≡ n
  all_arrived h e = omega (
    arith,
    weigh-const arrived 1 n pc (λ i lt.
        late_arrived (pc i) (omega (arith, weight-le-weigh holding n pc i lt))
          (omega (arith, weight-le-weigh early n pc i lt))),
  )

  none_holding : weigh holding n pc ≡ 0 → m.lock ≡ 0
  none_holding h =
      ground (arith, inv.exclusive, weigh-add guarding testing holding (λ p. refl) n pc)

  none_left :
      0 < n → weigh holding n pc ≡ 0 → weigh early n pc ≡ 0 → weigh leader n pc ≡ 0 → m.release ≡ 1
  none_left pos h e l = ground (
    arith,
    inv.exact,
    inv.gate,
    inv.one_leader,
    all_arrived h e,
    weigh-add guarding testing holding (λ p. refl) n pc,
  )

  -- While some hart has not passed, some hart is ready.
  pub someone_ready : 0 < n → 0 < weigh rank n pc → Someone
  someone_ready some pos = elim (dec_lt 0 (weigh holding n pc)) [
    | yes held ↦
        let (i, lt, h) = weigh-find holding n pc held in (i, lt, holding-IsReady m (pc i) h)
    | no free ↦ elim (dec_lt 0 (weigh early n pc)) [
      | yes some_early ↦
          let (i, lt, h) = weigh-find early n pc some_early in
          (i, lt, early-IsReady m (pc i) (none_holding (omega arith)) h)
      | no none_early ↦ elim (dec_lt 0 (weigh leader n pc)) [
        | yes led ↦
            let (i, lt, h) = weigh-find leader n pc led in (i, lt, leader-IsReady m (pc i) h)
        | no unled ↦
            let (i, lt, h) = weigh-find rank n pc pos in
            (
              i,
              lt,
              waiting-IsReady m (pc i) (none_left some (omega arith) (omega arith) (omega arith))
                  (omega (arith, weight-le-weigh holding n pc i lt))
                  (omega (arith, weight-le-weigh early n pc i lt))
                  (omega (arith, weight-le-weigh leader n pc i lt)) h,
            )
      ]
    ]
  ]

pub rank-passed : (p : Pc) → rank p ≡ 0 → p ≡ passed
rank-passed passed z = refl
rank-passed spinning z = absurd (omega arith)
rank-passed trying z = absurd (omega arith)
rank-passed locked z = absurd (omega arith)
rank-passed counted z = absurd (omega arith)
rank-passed behind z = absurd (omega arith)
rank-passed ahead z = absurd (omega arith)
rank-passed leading z = absurd (omega arith)
rank-passed restoring z = absurd (omega arith)
rank-passed waiting z = absurd (omega arith)
