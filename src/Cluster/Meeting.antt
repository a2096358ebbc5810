-- ===== src/Cluster/Meeting.antt =====
-- Seen from the shared variables of the meeting, interleaved harts make the accesses of Barrier, in
-- some order: the blocks before it and the way out touch none of them.
use lib_checkpoint.Common.{
  update, ℕ, ◌<◌, ◌≡◌, ◌⊎◌, ◌∙◌, ◌==◌, Bool-cases, ==_iff, inl, inr, refl, ap,
}
use mathlib.Core.Path.{fun_ext}
use lib_checkpoint.Memory.{Memory}
use lib_checkpoint.Hart.{CsrFile, Machine}
use lib_checkpoint.Restore.{all_cpu_num}
use lib_checkpoint.Barrier
use lib_checkpoint.Barrier.{
  Shared, Pc, spinning, trying, locked, counted, behind, ahead, waiting, leading, restoring, passed,
  access, System,
}
use lib_checkpoint.Cluster.{
  Setting, Task, Stage, checking, meeting, gone, meet, act, Cluster, seen, step,
}
use lib_checkpoint.Cluster.Alone.{alone, restored-state}
use lib_checkpoint.Cluster.Invariant.{IsSound}
use lib_checkpoint.Cluster.Follow.{start, Inv}

-- where a hart stands for the meeting
abbrev pub pc_of : Stage → Pc
pc_of (meeting pc) = pc
pc_of (gone e) = passed
pc_of _ = spinning

abbrev pub project : {F : CsrFile} → Cluster F → System
project s = record { shared = s.shared; pc = λ i. pc_of (s.stage i) }

module _ {F : CsrFile} (y : Setting) (i all : ℕ) (t : Task F) (m : Shared) where
  meet-access :
      (pc : Pc)
      → t.all ≡ all
      → ((meet y i m t pc).0 ≡ (access all m pc).0)
        × (pc_of (meet y i m t pc).2 ≡ (access all m pc).1)
  unfolding meet access
  meet-access passed e = (refl, refl)
  meet-access counted e = rw e (refl, refl)
  meet-access spinning e = (refl, refl)
  meet-access pc e = (refl, refl)

  -- A step either is an access of the meeting, or none.
  act-access :
      (st : Stage)
      → ((pc : Pc) → st ≡ meeting pc → t.all ≡ all)
      → (((act y i m t st).0 ≡ m) × (pc_of (act y i m t st).2 ≡ pc_of st))
        ⊎ (((act y i m t st).0 ≡ (access all m (pc_of st)).0)
            × (pc_of (act y i m t st).2 ≡ (access all m (pc_of st)).1))
  unfolding act
  act-access (meeting pc) e = inr (meet-access pc (e pc refl))
  act-access checking e = inl (refl, refl)
  act-access st e = inl (refl, refl)

update-pc_of :
    (stage : ℕ → Stage) (k : ℕ) (st : Stage) (pc : Pc)
    → pc_of st ≡ pc
    → (λ (i : ℕ). pc_of (update stage k st i)) ≡ update (λ (i : ℕ). pc_of (stage i)) k pc
update-pc_of stage k st pc e =
    fun_ext (λ i. elim (Bool-cases (i == k)) [ inl here ↦ rw here e | inr there ↦ rw there refl ])

update_self : (f : ℕ → Pc) (k : ℕ) → update f k (f k) ≡ f
update_self f k = fun_ext (λ i. elim (Bool-cases (i == k)) [
  | inl here ↦ rw (here, (==_iff i k).0 here) refl
  | inr there ↦ rw there refl
])

module _ {F : CsrFile} (y : Setting) (n : ℕ) (sound : IsSound y n) (m0 : Memory)
    (harts : ℕ → Machine F) (all : ℕ)
    (counts : (i : ℕ) → i < n → all_cpu_num (y.layout i) m0 ≡ all) where
  module _ (s : Cluster F) (inv : Inv y n sound m0 harts s) (k : ℕ) (lt : k < n) where
    -- A hart in the meeting goes by the number of harts.
    pub all-count : (pc : Pc) → s.stage k ≡ meeting pc → (seen k s).all ≡ all
    unfolding alone
    all-count pc at_pc =
        (inv.follows k lt).same.all
        ∙ ap (λ (st : Stage). (alone y k (start y n sound m0 harts k) st).all) at_pc
        ∙ (restored-state y k (start y n sound m0 harts k)).2
        ∙ counts k lt

    pub step-project :
        (project (step y k s) ≡ project s) ⊎ (project (step y k s) ≡ Barrier.step all k (project s))
    unfolding step Barrier.step
    step-project = elim (act-access y k all (seen k s) s.shared (s.stage k) all-count) [
      | inl (same, stays) ↦ inl (λ j. record {
        shared = same j;
        pc =
            (update-pc_of s.stage k (act y k s.shared (seen k s) (s.stage k)).2 (pc_of (s.stage k))
                  stays
                ∙ update_self (λ i. pc_of (s.stage i)) k)
              j;
      })
      | inr (next, moves) ↦ inr (λ j. record {
        shared = next j;
        pc =
            update-pc_of s.stage k (act y k s.shared (seen k s) (s.stage k)).2
              (access all s.shared (pc_of (s.stage k))).1 moves j;
      })
    ]
