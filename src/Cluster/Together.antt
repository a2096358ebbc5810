-- ===== src/Cluster/Together.antt =====
-- What comes out when the harts restore side by side: what each would get by itself.
use lib_checkpoint.Common.{ℕ, ◌<◌, ◌≡◌, [], ◌∷◌, some, if◌then◌else◌}
use lib_checkpoint.Memory.{Memory}
use lib_checkpoint.Hart.{CsrFile, Machine, emit}
use lib_checkpoint.Console.{mt_print}
use lib_checkpoint.Extensions.{Flags}
use lib_checkpoint.Restore.{
  Exit, must_wait, all_cpu_num, restore_state, restore_clock, single_core_rvv_rvh_rvgc_restore,
}
use lib_checkpoint.Cluster.{Setting, platform, Task}
use lib_checkpoint.Cluster.Invariant.{IsSound}

module _ {F : CsrFile} (y : Setting) (n : ℕ) (sound : IsSound y n) (i : ℕ) (lt : i < n)
    (first : Task F) (counter : ℕ) where
  open sound use {have_slots, in_memory, fits, readable}

  abbrev state : Machine F × Flags
  state = restore_state (platform y i) i (y.layout i) first.machine

  abbrev met : Machine F
  met =
      emit
        (mt_print "all cpu num %d atomic flag %d\n"
          (all_cpu_num (y.layout i) first.machine.mem ∷ counter ∷ []))
        state.0

  -- the hart by itself, when it may leave
  abbrev released : Task F
  released = record {
    machine =
        if must_wait counter (all_cpu_num (y.layout i) first.machine.mem)
        then met
        else restore_clock (y.layout i) met;
    flags = state.1;
    all = all_cpu_num (y.layout i) first.machine.mem;
  }

  abbrev pub sole : Machine F × Exit
  sole = single_core_rvv_rvh_rvgc_restore (platform y i) i (some (y.layout i)) counter first.machine

-- The registers of two harts, all kinds of them.
pub record IsTwin {F : CsrFile} (s t : Machine F) : Type 0 where
  pub csr : s.csr ≡ t.csr
  pub gpr : s.gpr ≡ t.gpr
  pub fpr : s.fpr ≡ t.fpr
  pub vreg : s.vreg ≡ t.vreg
