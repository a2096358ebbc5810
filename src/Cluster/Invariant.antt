-- ===== src/Cluster/Invariant.antt =====
-- While the harts are interleaved, each of them is where it would be by itself: the order of the others
-- does not matter to it.
use lib_checkpoint.Common.{ℕ, ◌+◌, ◌*◌, ◌^◌, ◌≤◌, ◌<◌, ◌≡◌, ◌∙◌, refl, ap, sym, arith}
use lib_checkpoint.Memory.{Memory}
use lib_checkpoint.Jal.{patch_address}
use lib_checkpoint.Jal.Slots.{slot_count, patch_address_lem}
use lib_checkpoint.Hart.{CsrFile}
use lib_checkpoint.Registers.{restore_mtime}
use lib_checkpoint.Restore.{Exit, restore_clock, restore_check}
use lib_checkpoint.Restore.Images.{dram}
use lib_checkpoint.Barrier.{Shared, Pc, spinning, counted, restoring, passed}
use lib_checkpoint.Cluster.{
  Setting, Task, Stage, checking, patching, hyper, vectors, floats, csr_list, timer, meeting, gone,
  block, beside, meet, act,
}
use lib_checkpoint.Cluster.Local.{IsImage, Agrees, IsReadable}
use lib_checkpoint.Cluster.Blocks.{Same, block-Same}
use lib_checkpoint.Cluster.Frame.{IsBeside, IsSlot, leave-mem, meet-mem, block-slot}
use lib_checkpoint.Cluster.Alone.{restored, departure, alone, alone-frame}
use lib_checkpoint.Cluster.Leave.{leave-exit, leave-Same}

-- Each of the `n` harts has a slot in memory, and an image apart from all slots.
pub record IsSound (y : Setting) (n : ℕ) : Type 0 where
  pub have_slots : n ≤ slot_count
  pub in_memory : dram ≤ y.core0
  pub fits : y.core0 + slot_count * 16 < 2 ^ 64
  pub readable : (i : ℕ) → i < n → IsReadable y.core0 y.vlenb i (y.layout i)

abbrev IsWay : Exit → Stage → Type 0
IsWay way (gone e) = e ≡ way
IsWay way _ = Unit {0}

-- Hart `i` with the task `t`, before the block `st`, has the registers that it has there by itself,
-- and memory has its slot.
pub record Follows {F : CsrFile} (y : Setting) (i : ℕ) (start : Task F) (m : Memory) (t : Task F)
    (st : Stage) : Type 0 where
  pub same : Same t (alone y i start st)
  pub slot : (j : ℕ) → IsSlot y.core0 i j → m j ≡ (alone y i start st).machine.mem j
  pub way : IsWay (departure y i start).1 st

module _ {F : CsrFile} (y : Setting) (n : ℕ) (sound : IsSound y n) (i : ℕ) (lt : i < n)
    (start : Task F) where
  open sound use {have_slots, in_memory, fits, readable}

  has_slot : i < slot_count
  has_slot = omega arith

  slot_lem : patch_address y.core0 i ≡ y.core0 + i * 16 + 12
  slot_lem = patch_address_lem y.core0 i (omega arith)

  pub image-IsBeside : (j : ℕ) → IsImage y.core0 j 1 → IsBeside y.core0 i j
  image-IsBeside j image = omega (arith, slot_lem)

  module _ (t : Task F) (agrees : Agrees y.core0 t.machine.mem start.machine.mem) where
    alone-Agrees : (st : Stage) → Agrees y.core0 t.machine.mem (alone y i start st).machine.mem
    alone-Agrees st j image =
        agrees j image ∙ sym (alone-frame y i start has_slot j (image-IsBeside j image) st)

    block-Follows :
        (st st' : Stage)
        → alone y i start st' ≡ block y i st (alone y i start st)
        → IsWay (departure y i start).1 st'
        → Follows y i start t.machine.mem t st
        → Follows y i start (block y i st t).machine.mem (block y i st t) st'
    block-Follows st st' next way f = record {
      same =
          rw next
            (block-Same y i t (alone y i start st) f.same (alone-Agrees st) (readable i lt) st);
      slot = λ j here. rw next (
          block-slot y i has_slot st t (alone y i start st) j f.same (alone-Agrees st)
            (readable i lt) here.0 (f.slot j here));
      way = way;
    }

    beside-Same : (m : Shared) (pc : Pc) (u : Task F) → Same t u → Same (beside y i m pc t) u
    unfolding beside restore_clock restore_check restore_mtime
    beside-Same m counted u same = ground (arith, same)
    beside-Same m restoring u same = ground (arith, same)
    beside-Same m spinning u same = same
    beside-Same m pc u same = same

    meet-Follows :
        (m : Shared) (pc : Pc)
        → Follows y i start t.machine.mem t (meeting pc)
        → Follows y i start (meet y i m t pc).1.machine.mem (meet y i m t pc).1 (meet y i m t pc).2
    unfolding meet alone
    meet-Follows m passed f = record {
      same =
          leave-Same y i t (restored y i start) f.same (alone-Agrees (meeting passed))
            (readable i lt);
      slot = λ j here.
          ap (λ (m : Memory). m j) (leave-mem y i has_slot t)
          ∙ f.slot j here
          ∙ sym (ap (λ (m : Memory). m j) (leave-mem y i has_slot (restored y i start)));
      way =
          leave-exit y i t (restored y i start) f.same (alone-Agrees (meeting passed))
            (readable i lt);
    }
    meet-Follows m pc f = record {
      same = beside-Same m pc (restored y i start) f.same;
      slot = λ j here. meet-mem y i has_slot m pc t j here.0 ∙ f.slot j here;
      way = tt;
    }

    -- A step of a hart takes it where it goes by itself.
    pub act-Follows :
        (m : Shared) (st : Stage)
        → Follows y i start t.machine.mem t st
        → Follows y i start (act y i m t st).1.machine.mem (act y i m t st).1 (act y i m t st).2
    unfolding act alone
    act-Follows m checking f = block-Follows checking patching refl tt f
    act-Follows m patching f = block-Follows patching hyper refl tt f
    act-Follows m hyper f = block-Follows hyper vectors refl tt f
    act-Follows m vectors f = block-Follows vectors floats refl tt f
    act-Follows m floats f = block-Follows floats csr_list refl tt f
    act-Follows m csr_list f = block-Follows csr_list timer refl tt f
    act-Follows m timer f = block-Follows timer (meeting spinning) refl tt f
    act-Follows m (meeting pc) f = meet-Follows m pc f
    act-Follows m (gone e) f = f
