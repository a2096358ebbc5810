-- ===== src/Barrier.antt =====
-- src/decode_restore.c, the end of `single_core_rvv_rvh_rvgc_restore`, and include/spinlock.h: the
-- harts meet under the lock `globash_restore_lock`, count themselves, and wait until the last of
-- them lets all go on. A step is one access to shared memory; the harts are interleaved freely.
pub mod Invariant
pub mod Safety
pub mod Ready
pub mod Progress
pub mod Clock
pub mod Missing
pub mod Tests
use lib_checkpoint.Common.{
  update, ℕ, zero, suc, ◌+◌, ◌-◌, ◌%◌, ◌^◌, ◌<◌, List, [], ◌∷◌, ◌==◌, if◌then◌else◌,
}
use lib_checkpoint.Spinlock.{
  taken, atomic_add, is_true, spinlock_init, spinlock_busy, spinlock_trylock, spinlock_unlock,
}
use lib_checkpoint.Restore.{must_wait}

-- `globash_restore_lock`, `global_atomic_restore_counter`, `release_restore`, and how often
-- `restore_mtime` has set the clock.
pub record Shared : Type 0 where
  pub lock : ℕ
  pub counter : ℕ
  pub release : ℕ
  pub clock_writes : ℕ

-- Where a hart stands.
pub data Pc : Type 0 where
  spinning : Pc  -- `while (atomic_read(&lock->lock))` of `spinlock_lock`
  trying : Pc  -- `spinlock_trylock`
  locked : Pc  -- before `atomic_add`
  counted : Pc  -- before the test of the counter
  behind : Pc  -- `spinlock_unlock`, and then to wait
  ahead : Pc  -- `spinlock_unlock`, and then to release
  waiting : Pc  -- `while (atomic_read(&release_restore) != 1)`
  leading : Pc  -- before `atomic_set(&release_restore, 1)`
  restoring : Pc  -- before `restore_mtime`
  passed : Pc  -- on the way out

-- One access of a hart that has read `all` as the number of harts.
unfoldable pub access : ℕ → Shared → Pc → Shared × Pc
access all m spinning = (m, if spinlock_busy m.lock then spinning else trying)
access all m trying =
    let (lock, res) = spinlock_trylock m.lock in
    (record m { lock = lock }, if is_true res then spinning else locked)
access all m locked = (record m { counter = (atomic_add m.counter 1).0 }, counted)
access all m counted = (m, if must_wait m.counter all then behind else ahead)
access all m behind = (record m { lock = spinlock_unlock m.lock }, waiting)
access all m ahead = (record m { lock = spinlock_unlock m.lock }, leading)
access all m waiting = (m, if m.release == 1 then passed else waiting)
access all m leading = (record m { release = 1 }, restoring)
access all m restoring = (record m { clock_writes = m.clock_writes + 1 }, passed)
access all m passed = (m, passed)

pub record System : Type 0 where
  pub shared : Shared
  pub pc : ℕ → Pc

-- Hart `i` makes its next access.
unfoldable pub step : ℕ → ℕ → System → System
step all i s =
    let (m, p) = access all s.shared (s.pc i) in record { shared = m; pc = update s.pc i p }

-- A schedule is the order in which the harts make their accesses.
unfoldable pub run : ℕ → List ℕ → System → System
run all [] s = s
run all (i ∷ is) s = run all is (step all i s)

-- The state after `clear_bss`.
abbrev pub initial : System
initial = record {
  shared = record { lock = spinlock_init; counter = 0; release = 0; clock_writes = 0 };
  pc = λ _. spinning;
}
