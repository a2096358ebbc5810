-- ===== src/Cluster/Resume.antt =====
-- Several cores whose images lie one after the other: each goes on with what it had.
use lib_checkpoint.Common.{ℕ, ◌+◌, ◌*◌, ◌^◌, ◌≤◌, ◌<◌, arith}
use lib_checkpoint.Memory.{Memory}
use lib_checkpoint.Layout.{Memlayout, get_core_memlayout}
use lib_checkpoint.Layout.Regions.{IsLaidOut, core_regions-Within, core_regions-Chain}
use lib_checkpoint.Jal.{patch_address}
use lib_checkpoint.Jal.Slots.{slot_count}
use lib_checkpoint.Hart.{CsrFile, Machine}
use lib_checkpoint.Restore.Images.{IsShared}
use lib_checkpoint.Cluster.{Setting}
use lib_checkpoint.Cluster.Local.{IsReadable}
use lib_checkpoint.Cluster.Invariant.{IsSound}

-- The harts of a machine whose cores have the layout `l` in regions of `single_core_size` bytes.
abbrev pub in_a_row : ℕ → ℕ → ℕ → ℕ → Memlayout → Setting
in_a_row core0 vlenb base_addr single_core_size l = record {
  core0 = core0;
  vlenb = vlenb;
  layout = λ i. get_core_memlayout base_addr single_core_size i l;
}

module _ (core0 vlenb base_addr single_core_size n : ℕ) (l : Memlayout)
    (laid : IsLaidOut single_core_size l) (fits : base_addr + n * single_core_size ≤ 2 ^ 64)
    (short : vlenb ≤ 16) (have_slots : n ≤ slot_count)
    (shared : IsShared core0 base_addr (n * single_core_size)) where
  open shared use {images_in_memory, slots_in_memory, slots_fit, apart}

  core_fits : (i : ℕ) → i < n → (i + 1) * single_core_size ≤ n * single_core_size
  core_fits i lt = grind arith

  ends : (i : ℕ) → i < n → base_addr + (i + 1) * single_core_size ≤ 2 ^ 64
  ends i lt = omega (arith, core_fits i lt)

  core-IsReadable :
      (i : ℕ) → i < n → IsReadable core0 vlenb i (get_core_memlayout base_addr single_core_size i l)
  core-IsReadable i lt =
      let within = core_regions-Within base_addr single_core_size i l laid (ends i lt) in
      let chain = core_regions-Chain base_addr single_core_size i l laid (ends i lt) in
      record {
        count = omega (arith, core_fits i lt, within);
        mode = omega (arith, core_fits i lt, within);
        target = omega (arith, core_fits i lt, within);
        timer = omega (arith, core_fits i lt, within, chain);
        csrs = omega (arith, core_fits i lt, within);
        floats = omega (arith, core_fits i lt, within);
        vectors = omega (arith, core_fits i lt, within);
        ints = omega (arith, core_fits i lt, within);
      }

  pub row-IsSound : IsSound (in_a_row core0 vlenb base_addr single_core_size l) n
  row-IsSound = record {
    have_slots = have_slots;
    in_memory = slots_in_memory;
    fits = slots_fit;
    readable = core-IsReadable;
  }

  module _ {F : CsrFile} (m0 : Memory) (harts : ℕ → Machine F) (i : ℕ) (lt : i < n) where
    abbrev row : Setting
    row = in_a_row core0 vlenb base_addr single_core_size l

    abbrev mine : Memlayout
    mine = get_core_memlayout base_addr single_core_size i l

    abbrev fresh : Machine F
    fresh = record (harts i) { mem = m0 }

    abbrev slot : ℕ
    slot = patch_address core0 i
