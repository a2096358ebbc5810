-- ===== src/Boot/Range.antt =====
-- From the entry of a hart to its way out, memory stays bytes and registers stay words.
use lib_checkpoint.Common.{◌^◌, ◌<◌, ◌≡◌}
use lib_checkpoint.Hart.{CsrFile, Machine}
use lib_checkpoint.Hart.Range.{IsInRange}
use lib_checkpoint.Boot.{Outcome, restored, payload, stopped}

-- The machine with which a hart leaves, and the address that it goes to, are in range.
abbrev pub LeavesInRange : {F : CsrFile} → Outcome F → Type 0
LeavesInRange (restored t e) = IsInRange t
LeavesInRange (payload t a) = IsInRange t × (a < 2 ^ 64)
LeavesInRange stopped = Unit {0}

module _ {F : CsrFile} where
  -- Only the log and the CSRs differ.
  abbrev SameStores : Machine F → Machine F → Type 0
  SameStores s t = (s.mem ≡ t.mem) × (s.gpr ≡ t.gpr) × (s.fpr ≡ t.fpr) × (s.vreg ≡ t.vreg)
