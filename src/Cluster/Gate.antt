-- ===== src/Cluster/Gate.antt =====
-- No hart goes on to its program before all have restored theirs.
use lib_checkpoint.Common.{ℕ, ◌^◌, ◌<◌, ◌≡◌, List}
use lib_checkpoint.Memory.{Memory}
use lib_checkpoint.Hart.{CsrFile, Machine}
use lib_checkpoint.Restore.{all_cpu_num}
use lib_checkpoint.Barrier
use lib_checkpoint.Barrier.{Pc, passed}
use lib_checkpoint.Common.Schedule.{IsSchedule}
use lib_checkpoint.Cluster.{Setting, Cluster, initial, run}
use lib_checkpoint.Cluster.Invariant.{IsSound}

-- The registers that are restored before the meeting.
pub record IsRestored {F : CsrFile} (s t : Machine F) : Type 0 where
  pub csr : s.csr ≡ t.csr
  pub fpr : s.fpr ≡ t.fpr
  pub vreg : s.vreg ≡ t.vreg

module _ {F : CsrFile} (y : Setting) (n : ℕ) (sound : IsSound y n) (m0 : Memory)
    (harts : ℕ → Machine F) (counts : (i : ℕ) → i < n → all_cpu_num (y.layout i) m0 ≡ n)
    (pos : 0 < n) (fits : n < 2 ^ 64) (is : List ℕ) (ok : IsSchedule n is) where
  abbrev reached : Cluster F
  reached = run y is (initial m0 harts)
