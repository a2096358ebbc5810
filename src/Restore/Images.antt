-- ===== src/Restore/Images.antt =====
-- The cores restore side by side from one memory: what one of them writes is no business of another.
use lib_checkpoint.Common.{ℕ, ◌+◌, ◌*◌, ◌^◌, ◌≤◌, ◌<◌, ◌≡◌, ◌≢◌, ◌⊎◌, arith}
use lib_checkpoint.Memory.{Memory}
use lib_checkpoint.CsrLists.{clint_mmio}
use lib_checkpoint.Layout.{Memlayout}
use lib_checkpoint.Jal.{patch_address}
use lib_checkpoint.Jal.Slots.{slot_count, patch_address_lem}
use lib_checkpoint.Hart.{CsrFile, Machine}
use lib_checkpoint.Restore.{Platform}
use lib_checkpoint.Restore.Resume.{finished, finished_frame}

-- above the devices of the CLINT
abbrev pub dram : ℕ
dram = clint_mmio + 0x10000

-- The slots, and the `extent` bytes from `base_addr` on that hold the images of all the cores, are in
-- memory, apart from each other.
pub record IsShared (core0 base_addr extent : ℕ) : Type 0 where
  pub images_in_memory : dram ≤ base_addr
  pub slots_in_memory : dram ≤ core0
  pub slots_fit : core0 + slot_count * 16 < 2 ^ 64
  pub apart : (core0 + slot_count * 16 ≤ base_addr) ⊎ (base_addr + extent ≤ core0)

module _ {F : CsrFile} (p : Platform) (base_addr extent cpu_id : ℕ) (l : Memlayout) (counter : ℕ)
    (s : Machine F) (shared : IsShared p.core0 base_addr extent)
    (has_slot : cpu_id < slot_count) where
  open shared use {images_in_memory, slots_in_memory, slots_fit, apart}

  slot_lem : patch_address p.core0 cpu_id ≡ p.core0 + cpu_id * 16 + 12
  slot_lem = patch_address_lem p.core0 cpu_id (omega arith)

  -- Where the images and the slots of all cores are in memory apart from each other, a core with a
  -- slot leaves every byte of the images as it was.
  pub images_kept :
      (j : ℕ)
      → base_addr ≤ j
      → j < base_addr + extent
      → (finished p cpu_id l counter s).0.mem j ≡ s.mem j
  images_kept j lo hi =
      finished_frame p cpu_id l counter s j (ground (arith, slot_lem)) (omega arith)

  -- A core with a slot leaves every byte of another core's slot as it was.
  pub slots_kept :
      (other j : ℕ)
      → other < slot_count
      → other ≢ cpu_id
      → p.core0 + other * 16 ≤ j
      → j < p.core0 + (other + 1) * 16
      → (finished p cpu_id l counter s).0.mem j ≡ s.mem j
  slots_kept other j range ne lo hi =
      finished_frame p cpu_id l counter s j (grind (arith, slot_lem)) (omega arith)
