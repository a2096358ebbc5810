-- ===== src/Cluster.antt =====
-- src/decode_restore.c, `single_core_rvv_rvh_rvgc_restore`, run by several harts on one memory. A
-- step of a hart is one block of the function, up to the meeting of the cores; there it is one
-- access to a shared variable, as in Barrier. Harts are interleaved freely. A block before the
-- meeting stores at most once to memory, at its end, and loads from the images alone, which no
-- hart writes, so the order of its accesses among those of other harts is of no account.
pub mod Local
pub mod Blocks
pub mod Frame
pub mod Alone
pub mod Leave
pub mod Invariant
pub mod Follow
pub mod Together
pub mod Meeting
pub mod Gate
pub mod Short
pub mod Decision
pub mod Progress
pub mod Resume
pub mod Tests
use lib_checkpoint.Common.{ℕ, ◌+◌, List, [], ◌∷◌, ◌++◌, update}
use lib_checkpoint.Memory.{Memory}
use lib_checkpoint.Console.{mt_print}
use lib_checkpoint.Encoding.{csr_misa}
use lib_checkpoint.Layout.{Memlayout}
use lib_checkpoint.Extensions.{Flags, no_flags, checkpoint_ext_check}
use lib_checkpoint.Hart.{CsrFile, Machine, emit}
use lib_checkpoint.Registers.{
  restore_csr_vector, rvh_csr_restore, rvv_restore, restore_float_vector, restore_mtime_cmp,
}
use lib_checkpoint.Restore.{
  Platform, Exit, when, all_cpu_num, mtimecmp_device, mtimecmp_source, restore_check, patch_slot,
  restore_clock, leave,
}
use lib_checkpoint.Barrier
use lib_checkpoint.Barrier.{
  Shared, Pc, spinning, trying, locked, counted, behind, ahead, waiting, leading, restoring, passed,
  access,
}

-- the block of the function that a hart runs next
pub data Stage : Type 0 where
  checking : Stage  -- `all_cpu_num`, and `checkpoint_ext_check`
  patching : Stage
  hyper : Stage
  vectors : Stage
  floats : Stage
  csr_list : Stage
  timer : Stage
  meeting : Pc → Stage
  gone : Exit → Stage

-- A hart with the local variables of the function. Of memory, a hart keeps no more than what it
-- last saw; that of the cluster counts.
pub record Task (F : CsrFile) : Type 0 where
  pub machine : Machine F
  pub flags : Flags
  pub all : ℕ

-- What all harts have in common: `core0` and the bytes of a vector register, and the layout that
-- each of them has got.
pub record Setting : Type 0 where
  pub core0 : ℕ
  pub vlenb : ℕ
  pub layout : ℕ → Memlayout

-- Hart `i` restores core `i`.
abbrev pub platform : Setting → ℕ → Platform
platform y i = record { core0 = y.core0; mhartid = i; vlenb = y.vlenb }

abbrev pub after : Stage → Stage
after checking = patching
after patching = hyper
after hyper = vectors
after vectors = floats
after floats = csr_list
after csr_list = timer
after timer = meeting spinning
after st = st

module _ {F : CsrFile} (y : Setting) (i : ℕ) where
  abbrev on : (Machine F → Machine F) → Task F → Task F
  on f t = record t { machine = f t.machine }

  -- The blocks before the meeting.
  unfoldable pub block : Stage → Task F → Task F
  unfolding restore_check
  block checking t =
      let l = y.layout i in
      let (flags, printed) =
        checkpoint_ext_check (F.read t.machine.csr csr_misa) t.machine.mem l.csr_reg_cpt_addr
          l.mode_cpt_addr no_flags in
      record {
        machine = record t.machine { log = t.machine.log ++ printed };
        flags = flags;
        all = all_cpu_num l t.machine.mem;
      }
  block patching t = on (when t.flags.should_jump_to_mepc (patch_slot y.core0 i (y.layout i))) t
  block hyper t =
      on
        (when t.flags.rvh_could_restore
          (λ (s : Machine F). restore_check "H" (rvh_csr_restore (y.layout i).csr_reg_cpt_addr s)))
        t
  block vectors t =
      on
        (when t.flags.rvv_could_restore (λ (s : Machine F).
          restore_check "V"
            (rvv_restore y.vlenb (y.layout i).csr_reg_cpt_addr (y.layout i).vector_reg_cpt_addr s)))
        t
  block floats t =
      on
        (when t.flags.rvf_could_restore (λ (s : Machine F).
          restore_check "Float" (restore_float_vector (y.layout i).float_reg_cpt_addr s)))
        t
  block csr_list t =
      on
        (λ (s : Machine F).
          restore_check "CSR" (restore_csr_vector (y.layout i).csr_reg_cpt_addr s))
        t
  block timer t =
      on
        (λ (s : Machine F).
          restore_check "MTIME_CMP"
            (restore_mtime_cmp (mtimecmp_device i) (mtimecmp_source i (y.layout i)) s))
        t
  block (meeting pc) t = t
  block (gone e) t = t

  -- What a hart does at an access of the meeting beside it: the line that it prints under the
  -- lock, and the clock.
  unfoldable pub beside : Shared → Pc → Task F → Task F
  beside m counted t =
      on (emit (mt_print "all cpu num %d atomic flag %d\n" (t.all ∷ m.counter ∷ []))) t
  beside m restoring t = on (restore_clock (y.layout i)) t
  beside m pc t = t

  -- the next step in the meeting, or the way out
  unfoldable pub meet : Shared → Task F → Pc → Shared × Task F × Stage
  unfolding beside
  meet m t passed =
      let (s, e) = leave (platform y i) (y.layout i) t.flags t.machine in
      (m, record t { machine = s }, gone e)
  meet m t pc = let (m', pc') = access t.all m pc in (m', beside m pc t, meeting pc')

  unfoldable pub act : Shared → Task F → Stage → Shared × Task F × Stage
  unfolding block meet
  act m t (meeting pc) = meet m t pc
  act m t st = (m, block st t, after st)

pub record Cluster (F : CsrFile) : Type 0 where
  pub mem : Memory
  pub shared : Shared
  pub task : ℕ → Task F
  pub stage : ℕ → Stage

-- The harts enter the function, with their registers as they are.
abbrev pub initial : {F : CsrFile} → Memory → (ℕ → Machine F) → Cluster F
initial m harts = record {
  mem = m;
  shared = Barrier.initial.shared;
  task = λ i. record { machine = harts i; flags = no_flags; all = 0 };
  stage = λ _. checking;
}

module _ {F : CsrFile} where
  -- the task of hart `i`, which sees memory as it is
  abbrev pub seen : ℕ → Cluster F → Task F
  seen i s = record (s.task i) { machine = record (s.task i).machine { mem = s.mem } }

  -- Hart `i` goes on.
  unfoldable pub step : Setting → ℕ → Cluster F → Cluster F
  step y i s =
      let (m, t, st) = act y i s.shared (seen i s) (s.stage i) in
      record {
        mem = t.machine.mem;
        shared = m;
        task = update s.task i t;
        stage = update s.stage i st;
      }

  unfoldable pub run : Setting → List ℕ → Cluster F → Cluster F
  run y [] s = s
  run y (i ∷ is) s = run y is (step y i s)
