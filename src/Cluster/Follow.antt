-- ===== src/Cluster/Follow.antt =====
-- Harts that are interleaved do not disturb each other.
use lib_checkpoint.Common.{
  ℕ, ◌<◌, ◌≢◌, ◌∙◌, refl, arith, List, [], ◌∷◌, ℕ_discrete, ==-of-ne, ==_iff,
}
use lib_checkpoint.Memory.{Memory}
use lib_checkpoint.Jal.Slots.{patches_apart}
use lib_checkpoint.Hart.{CsrFile, Machine}
use lib_checkpoint.Common.Schedule.{IsSchedule}
use lib_checkpoint.Cluster.{Setting, Task, Cluster, seen, initial, step, run}
use lib_checkpoint.Cluster.Local.{Agrees}
use lib_checkpoint.Cluster.Frame.{IsBeside, IsSlot, act-frame}
use lib_checkpoint.Cluster.Alone.{alone}
use lib_checkpoint.Cluster.Invariant.{IsSound, Follows, image-IsBeside, act-Follows}

module _ {F : CsrFile} (y : Setting) (n : ℕ) (sound : IsSound y n) (m0 : Memory)
    (harts : ℕ → Machine F) where
  open sound use {have_slots, in_memory, fits}

  abbrev pub start : ℕ → Task F
  start i = seen i (initial m0 harts)

  pub record Inv (s : Cluster F) : Type 0 where
    pub image : Agrees y.core0 s.mem m0
    pub follows : (i : ℕ) → i < n → Follows y i (start i) s.mem (seen i s) (s.stage i)

  other-IsBeside : (i k j : ℕ) → i < n → k < n → i ≢ k → IsSlot y.core0 i j → IsBeside y.core0 k j
  other-IsBeside i k j lt lt' ne here = ground (arith, patches_apart y.core0 i k fits)

  module _ (s : Cluster F) (inv : Inv s) (k : ℕ) (lt : k < n) where
    step-image : Agrees y.core0 (step y k s).mem m0
    unfolding step
    step-image j image =
        act-frame y k (omega arith) s.shared (s.stage k) (seen k s) j
          (image-IsBeside y n sound k lt (start k) j image)
        ∙ inv.image j image

    mover-Follows :
        Follows y k (start k) (step y k s).mem (seen k (step y k s)) ((step y k s).stage k)
    unfolding step
    mover-Follows = rw ((==_iff k k).1 refl) (
        act-Follows y n sound k lt (start k) (seen k s) inv.image s.shared (s.stage k)
          (inv.follows k lt))

    other-Follows :
        (i : ℕ)
        → i < n
        → i ≢ k
        → Follows y i (start i) (step y k s).mem (seen i (step y k s)) ((step y k s).stage i)
    unfolding step
    other-Follows i lt' ne = rw (==-of-ne i k ne) (record {
      same = ground (arith, inv.follows i lt');
      slot = λ j here.
          act-frame y k (omega arith) s.shared (s.stage k) (seen k s) j
            (other-IsBeside i k j lt' lt ne here)
          ∙ (inv.follows i lt').slot j here;
      way = (inv.follows i lt').way;
    })

    pub step-Inv : Inv (step y k s)
    step-Inv = record {
      image = step-image;
      follows = λ i lt'. elim (ℕ_discrete i k) [
        | yes e ↦ rw e mover-Follows
        | no ne ↦ other-Follows i lt' ne
      ];
    }

  run-Inv : (is : List ℕ) (s : Cluster F) → IsSchedule n is → Inv s → Inv (run y is s)
  unfolding run
  run-Inv [] s ok inv = inv
  run-Inv (k ∷ is) s ok inv = run-Inv is (step y k s) ok.1 (step-Inv s inv k ok.0)

  pub initial-Inv : Inv (initial m0 harts)
  unfolding alone
  initial-Inv = record {
    image = λ j image. refl;
    follows = λ i lt. record {
      same = record { flags = refl; all = refl; csr = refl; gpr = refl; fpr = refl; vreg = refl };
      slot = λ j here. refl;
      way = tt;
    };
  }

  pub reached-Inv : (is : List ℕ) → IsSchedule n is → Inv (run y is (initial m0 harts))
  reached-Inv is ok = run-Inv is (initial m0 harts) ok initial-Inv
