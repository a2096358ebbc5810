-- ===== src/Cluster/Progress.antt =====
-- The harts cannot block each other for good: from every state that they reach, they can all leave.
use lib_checkpoint.Common.{ℕ, zero, suc, ◌+◌, ◌^◌, ◌<◌, ◌≡◌}
use lib_checkpoint.Memory.{Memory}
use lib_checkpoint.Hart.{CsrFile, Machine}
use lib_checkpoint.Restore.{Exit, all_cpu_num}
use lib_checkpoint.Barrier
use lib_checkpoint.Barrier.{
  Shared, spinning, trying, locked, counted, behind, ahead, waiting, leading, restoring, passed,
  access,
}
use lib_checkpoint.Barrier.Invariant
use lib_checkpoint.Barrier.Ready.{rank, IsReady}
use lib_checkpoint.Cluster.{
  Setting, Stage, checking, patching, hyper, vectors, floats, csr_list, timer, meeting, gone,
  Cluster,
}
use lib_checkpoint.Cluster.Invariant.{IsSound}
use lib_checkpoint.Cluster.Follow
use lib_checkpoint.Cluster.Follow.{Inv}
use lib_checkpoint.Cluster.Meeting.{project}

-- how many steps a hart has before it at most, but for spinning and waiting
abbrev pub left : Stage → ℕ
left checking = 16
left patching = 15
left hyper = 14
left vectors = 13
left floats = 12
left csr_list = 11
left timer = 10
left (meeting pc) = rank pc + 1
left (gone e) = 0

-- A step of the hart brings it nearer to the end.
abbrev CanGo : Shared → Stage → Type 0
CanGo m (meeting passed) = Unit {0}
CanGo m (meeting pc) = IsReady m pc
CanGo m (gone e) = ⊥
CanGo m _ = Unit {0}

-- The first `n` harts have all left.
pub AllGone : ℕ → (ℕ → Stage) → Type 0
AllGone zero stage = Unit
AllGone (suc n) stage = ((e : Exit) × (stage n ≡ gone e)) × AllGone n stage

module _ {F : CsrFile} (y : Setting) (n : ℕ) (sound : IsSound y n) (m0 : Memory)
    (harts : ℕ → Machine F) (counts : (i : ℕ) → i < n → all_cpu_num (y.layout i) m0 ≡ n)
    (pos : 0 < n) (fits : n < 2 ^ 64) where
  -- What holds of a state that the harts reach.
  record IsReached (s : Cluster F) : Type 0 where
    inv : Inv y n sound m0 harts s
    met : Invariant.Inv n s.shared (project s).pc
