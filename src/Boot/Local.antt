-- ===== src/Boot/Local.antt =====
-- What the decision of a hart depends on: the header's buffer, or the word of the magic number.
use lib_checkpoint.Common.{ℕ, ◌+◌, ◌≤◌, ◌<◌, ◌≡◌, arith}
use lib_checkpoint.Memory.{Memory, load32, load64}
use lib_checkpoint.Layout.Fields.{protobuf_buffer_size}
use lib_checkpoint.Hart.{CsrFile, Machine}
use lib_checkpoint.Boot.{
  Mode, default_config, qemu_dual_core_system, bare_metal_workload, Decoder, plan, plan_default,
  plan_fixed, header_decode, memlayout_decode, check_magic_number, magic_number_address,
  set_checkpoint_header,
}

-- The two memories have the same `size` bytes from `a` on.
abbrev pub SameBytes : ℕ → ℕ → Memory → Memory → Type 0
SameBytes a size m m' = (j : ℕ) → a ≤ j → j < a + size → m j ≡ m' j

-- A stream of nanopb is over its buffer: it is the same on memories with the same bytes there.
abbrev pub ReadsItsBuffer : Decoder → Type 0
ReadsItsBuffer d =
    (a size : ℕ) (m m' : Memory)
    → SameBytes a size m m'
    → d.istream_from_buffer a size m ≡ d.istream_from_buffer a size m'

-- where, and how many bytes, a hart reads to decide
abbrev pub reads_at : Mode → ℕ → ℕ
reads_at default_config start_address = start_address
reads_at qemu_dual_core_system start_address = 0x803ECDB0
reads_at bare_metal_workload start_address = 0x800ECDB0

abbrev pub reads_size : Mode → ℕ
reads_size default_config = protobuf_buffer_size
reads_size _ = 8

load64-SameBytes : (m m' : Memory) (a : ℕ) → SameBytes a 8 m m' → load64 m a ≡ load64 m' a
unfolding load64 load32
load64-SameBytes m m' a same = omega (
  arith,
  same a (omega arith) (omega arith),
  same (a + 1) (omega arith) (omega arith),
  same (a + 2) (omega arith) (omega arith),
  same (a + 3) (omega arith) (omega arith),
  same (a + 4) (omega arith) (omega arith),
  same (a + 4 + 1) (omega arith) (omega arith),
  same (a + 4 + 2) (omega arith) (omega arith),
  same (a + 4 + 3) (omega arith) (omega arith),
)

module _ {F : CsrFile} (start_address : ℕ) (d : Decoder) (local : ReadsItsBuffer d)
    (s t : Machine F) where
  -- Two harts that see the same there decide the same, whatever else differs.
  pub plan-local :
      (mode : Mode)
      → SameBytes (reads_at mode start_address) (reads_size mode) s.mem t.mem
      → (plan d mode start_address s).0 ≡ (plan d mode start_address t).0
  unfolding plan plan_default plan_fixed header_decode memlayout_decode check_magic_number
      magic_number_address set_checkpoint_header
  plan-local default_config same =
      ground (arith, local start_address protobuf_buffer_size s.mem t.mem same)
  plan-local qemu_dual_core_system same =
      ground (arith, load64-SameBytes s.mem t.mem 0x803ECDB0 same)
  plan-local bare_metal_workload same = ground (arith, load64-SameBytes s.mem t.mem 0x800ECDB0 same)
