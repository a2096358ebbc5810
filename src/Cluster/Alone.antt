-- ===== src/Cluster/Alone.antt =====
-- One hart by itself: its blocks one after the other, which make up `restore_state`, and its way out.
use lib_checkpoint.Common.{ℕ, ◌<◌, ◌≡◌, ◌∙◌, refl, arith}
use lib_checkpoint.Hart.{CsrFile, Machine}
use lib_checkpoint.Jal.Slots.{slot_count}
use lib_checkpoint.Registers.{restore_int_vector_mret, restore_int_vector_jump}
use lib_checkpoint.Restore.{Exit, leave, restore_state, restore_extensions, all_cpu_num}
use lib_checkpoint.Cluster.{
  Setting, platform, Task, Stage, checking, patching, hyper, vectors, floats, csr_list, timer,
  meeting, gone, block,
}
use lib_checkpoint.Cluster.Frame.{IsBeside, block-frame}

module _ {F : CsrFile} (y : Setting) (i : ℕ) (start : Task F) where
  abbrev checked : Task F
  checked = block y i checking start

  abbrev patched : Task F
  patched = block y i patching checked

  abbrev hypervised : Task F
  hypervised = block y i hyper patched

  abbrev vectored : Task F
  vectored = block y i vectors hypervised

  abbrev floated : Task F
  floated = block y i floats vectored

  abbrev listed : Task F
  listed = block y i csr_list floated

  abbrev pub restored : Task F
  restored = block y i timer listed

  abbrev pub departure : Machine F × Exit
  departure = leave (platform y i) (y.layout i) restored.flags restored.machine

  -- The hart when it has come to a block. In the meeting it changes none of its registers.
  unfoldable pub alone : Stage → Task F
  alone checking = start
  alone patching = checked
  alone hyper = patched
  alone vectors = hypervised
  alone floats = vectored
  alone csr_list = floated
  alone timer = listed
  alone (meeting pc) = restored
  alone (gone e) = record restored { machine = departure.0 }

  -- The blocks together are `restore_state`.
  pub restored-state :
      (restored.machine ≡ (restore_state (platform y i) i (y.layout i) start.machine).0)
      × (restored.flags ≡ (restore_state (platform y i) i (y.layout i) start.machine).1)
      × (restored.all ≡ all_cpu_num (y.layout i) start.machine.mem)
  unfolding block restore_state restore_extensions
  restored-state = (refl, refl, refl)

  -- What the hart leaves alone on its way to each block, and on the whole.
  module _ (has_slot : i < slot_count) (j : ℕ) (off : IsBeside y.core0 i j) where
    abbrev Kept : Task F → Type 0
    Kept t = t.machine.mem j ≡ start.machine.mem j

    block-Kept : (st : Stage) (t : Task F) → Kept t → Kept (block y i st t)
    block-Kept st t kept = block-frame y i has_slot st t j off ∙ kept

    checked-Kept : Kept checked
    checked-Kept = block-Kept checking start refl

    patched-Kept : Kept patched
    patched-Kept = block-Kept patching checked checked-Kept

    hypervised-Kept : Kept hypervised
    hypervised-Kept = block-Kept hyper patched patched-Kept

    vectored-Kept : Kept vectored
    vectored-Kept = block-Kept vectors hypervised hypervised-Kept

    floated-Kept : Kept floated
    floated-Kept = block-Kept floats vectored vectored-Kept

    listed-Kept : Kept listed
    listed-Kept = block-Kept csr_list floated floated-Kept

    restored-Kept : Kept restored
    restored-Kept = block-Kept timer listed listed-Kept

    pub alone-frame : (st : Stage) → (alone st).machine.mem j ≡ start.machine.mem j
    unfolding alone leave restore_int_vector_mret restore_int_vector_jump
    alone-frame checking = refl
    alone-frame patching = checked-Kept
    alone-frame hyper = patched-Kept
    alone-frame vectors = hypervised-Kept
    alone-frame floats = vectored-Kept
    alone-frame csr_list = floated-Kept
    alone-frame timer = listed-Kept
    alone-frame (meeting pc) = restored-Kept
    alone-frame (gone e) = ground (arith, restored-Kept)
