-- ===== src/Jal/Slots.antt =====
-- The words that `single_core_rvv_rvh_rvgc_restore` patches in the table of restore.S: 128 slots
-- of four words, of which the last is the placeholder.
use lib_checkpoint.Common.{ℕ, ◌+◌, ◌*◌, ◌^◌, ◌<◌, ◌≤◌, ◌≡◌, ◌≢◌, ◌⊎◌, arith}
use lib_checkpoint.Jal.{patch_address}

-- `.rept 128`
abbrev pub slot_count : ℕ
slot_count = 128

-- The patched word is the last of the core's slot.
pub patch_address_lem :
    (core0 cpu_id : ℕ)
    → core0 + cpu_id * 16 + 12 < 2 ^ 64
    → patch_address core0 cpu_id ≡ core0 + cpu_id * 16 + 12
unfolding patch_address
patch_address_lem core0 cpu_id fits = omega arith

pub patch_address-lt : (core0 cpu_id : ℕ) → patch_address core0 cpu_id < 2 ^ 64
unfolding patch_address
patch_address-lt core0 cpu_id = omega arith

-- For the cores that have a slot, the patched words lie in the table, aligned as the table is, and
-- those of two cores have no byte in common.
pub patches_apart :
    (core0 a b : ℕ)
    → core0 + slot_count * 16 < 2 ^ 64
    → a < slot_count
    → b < slot_count
    → a ≢ b
    → (core0 ≤ patch_address core0 a)
      × (patch_address core0 a + 4 ≤ core0 + slot_count * 16)
      × ((patch_address core0 a + 4 ≤ patch_address core0 b)
          ⊎ (patch_address core0 b + 4 ≤ patch_address core0 a))
unfolding patch_address
patches_apart core0 a b fits ha hb ne = grind arith
