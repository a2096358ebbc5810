-- ===== src/Boot.antt =====
-- src/gcpt.c: what a hart does from `gcpt_c_start` on. `configure` chooses one of three modes. The
-- decoder of the protobuf messages, nanopb, is a parameter; so are the addresses of the linker.
pub mod Decision
pub mod Resume
pub mod Registers
pub mod Range
pub mod Local
pub mod Handover
pub mod Entry
pub mod Tests
use lib_checkpoint.Common.{
  update, ℕ, ◌+◌, ◌*◌, ◌%◌, ◌^◌, Bool, true, false, ◌&&◌, not, Option, none, some, List, [], ◌∷◌,
  ◌==◌, if◌then◌else◌,
}
use lib_checkpoint.Memory.{Memory, load64, store64}
use lib_checkpoint.Utils.{clear_bss}
use lib_checkpoint.Console.{print, mt_print}
use lib_checkpoint.Layout.{
  CheckpointHeader, Memlayout, header_init_zero, memlayout_init_zero, default_qemu_memlayout,
}
use lib_checkpoint.Layout.Fields.{protobuf_buffer_size}
use lib_checkpoint.Hart.{CsrFile, Machine, emit}
use lib_checkpoint.Restore.{Build, Platform, Exit, multicore_decode_restore}
use lib_checkpoint.Trap.{enable_gcpt_trap, disable_gcpt_trap}

-- `--mode=normal`, `dual_core` and `bare_metal`
pub data Mode : Type 0 where
  default_config : Mode
  qemu_dual_core_system : Mode
  bare_metal_workload : Mode

-- nanopb: a stream over a buffer, and `pb_decode_ex` with `PB_ENCODE_NULLTERMINATED` for the two
-- messages. A decoder returns its status, the struct as it has filled it, and the rest.
pub record Decoder : Type 1 where
  pub Stream : Type 0
  pub istream_from_buffer : ℕ → ℕ → Memory → Stream
  pub decode_header : Stream → CheckpointHeader → Bool × CheckpointHeader × Stream
  pub decode_memlayout : Stream → Memlayout → Bool × Memlayout × Stream

-- the symbols of restore.lds and of the assembly files
pub record Symbols : Type 0 where
  pub s_bss : ℕ
  pub e_bss : ℕ
  pub bss_lock : ℕ
  pub gcpt_trap : ℕ
  pub payload_bin : ℕ

abbrev pub magic_number : ℕ
magic_number = 0xdeadbeef

abbrev pub cpt_magic_number : ℕ
cpt_magic_number = 0xbeef

-- DRAM, where the restorer is loaded unless it runs from flash
abbrev pub memory_start : ℕ
memory_start = 0x80000000

-- `get_memory_buffer`, for a build with `USING_FLASH_CHECKPOINT` and without
pub get_memory_buffer : Bool → ℕ
get_memory_buffer true = 0x10000000
get_memory_buffer false = 0x80000000

pub set_checkpoint_header : CheckpointHeader → ℕ → ℕ → CheckpointHeader
set_checkpoint_header h cpt_offset single_core_size = record h {
  cpt_offset = cpt_offset;
  single_core_size = single_core_size;
}

pub magic_number_address : CheckpointHeader → Memlayout → ℕ → ℕ
magic_number_address h l cpt_base_address =
    (cpt_base_address + h.cpt_offset + l.magic_number_cpt_addr) % 2 ^ 64

pub check_magic_number : CheckpointHeader → Memlayout → ℕ → ℕ → Memory → Bool
check_magic_number h l cpt_base_address magic m =
    if load64 m (magic_number_address h l cpt_base_address) == magic then true else false

-- What the restorer is to restore, if anything: the header and the layout.
abbrev pub Plan : Type 0
Plan = Option (CheckpointHeader × Memlayout)

module _ {F : CsrFile} where
  -- `header_decode` and `memlayout_decode`, the two functions of the macro `PROTOBUF_DECODE`
  header_decode :
      (d : Decoder) → d.Stream → Machine F → Bool × CheckpointHeader × d.Stream × Machine F
  header_decode d stream s =
      let (status, header, rest) = d.decode_header stream header_init_zero in
      if status
      then (true, header, rest, emit (print "header decode success\n" []) s)
      else (false, header, rest, emit (print "header decode filed: %s\n" []) s)

  memlayout_decode : (d : Decoder) → d.Stream → Machine F → Bool × Memlayout × Machine F
  memlayout_decode d stream s =
      let (status, layout, rest) = d.decode_memlayout stream memlayout_init_zero in
      if status
      then (true, layout, emit (print "memlayout decode success\n" []) s)
      else (false, layout, emit (print "memlayout decode filed: %s\n" []) s)

  -- the branch `USING_DEFAULT_CONFIG`
  plan_default : Decoder → ℕ → Machine F → Plan × Machine F
  plan_default d start_address s =
      let stream = d.istream_from_buffer start_address protobuf_buffer_size s.mem in
      let (header_ok, header, rest, s1) = header_decode d stream s in
      if header_ok && (header.magic_number == magic_number)
      then (let s2 : Machine F =
            emit (print "Get header magic number %lx\n" (header.magic_number ∷ [])) s1 in
          let (memlayout_ok, layout, s3) = memlayout_decode d rest s2 in
          if memlayout_ok
          then (some (header, layout), s3)
          else (none, emit (print "Decode memlayout failed\n" []) s3))
      else (
        none,
        emit (print "Decode header from device failed or get magic number failed\n" []) s1,
      )

  -- the other two, which differ in the offset of the checkpoint
  plan_fixed : ℕ → Machine F → Plan × Machine F
  plan_fixed cpt_offset s =
      let header = set_checkpoint_header header_init_zero cpt_offset (1024 * 1024) in
      if check_magic_number header default_qemu_memlayout memory_start cpt_magic_number s.mem
      then (some (header, default_qemu_memlayout), s)
      else (none, s)

  pub plan : Decoder → Mode → ℕ → Machine F → Plan × Machine F
  plan d default_config start_address s = plan_default d start_address s
  plan d qemu_dual_core_system start_address s = plan_fixed 0x300000 s
  plan d bare_metal_workload start_address s = plan_fixed 0 s

  -- the test `cpu_id == 0` at the start; any other hart has waited for `bss_lock` to be set
  enter_bss : Symbols → ℕ → Machine F → Machine F
  enter_bss y cpu_id s =
      if cpu_id == 0
      then record s { mem = store64 (clear_bss y.s_bss y.e_bss s.mem) y.bss_lock 1 }
      else s

  -- `gcpt_c_start` after that, up to the choice
  pub start : Symbols → Decoder → Mode → ℕ → ℕ → Machine F → Plan × Machine F
  start y d mode cpu_id start_address s =
      let s1 : Machine F =
        emit (mt_print "Hello, gcpt at cpu %d start address %lx\n" (cpu_id ∷ start_address ∷ []))
          (enter_bss y cpu_id s) in
      plan d mode start_address (enable_gcpt_trap y.gcpt_trap s1)

pub payload_address : Symbols → ℕ → ℕ
payload_address y start_address =
    if start_address == memory_start then y.payload_bin else memory_start

-- How a hart leaves the program: with its checkpoint, to the payload (the address that
-- `before_boot_payload` jumps to), or never, if it is the core to be stopped.
pub data Outcome (F : CsrFile) : Type 0 where
  restored : Machine F → Exit → Outcome F
  payload : Machine F → ℕ → Outcome F
  stopped : Outcome F

module _ {F : CsrFile} where
  -- src/boot.S: `a1` is 0 and `a0` the number of the hart at the jump to `a0`, kept in `t0`.
  before_boot_payload : ℕ → ℕ → Machine F → Machine F
  before_boot_payload mhartid target s = record s {
    gpr = update (update (update s.gpr 5 target) 11 0) 10 mhartid;
  }

  -- the label `boot_payload`
  pub boot_payload : Symbols → ℕ → ℕ → Machine F → Outcome F
  unfolding before_boot_payload
  boot_payload y mhartid start_address s =
      let target = payload_address y start_address in
      let told : Machine F =
        emit (mt_print "Will boot payload from %p\n" (target ∷ [])) (disable_gcpt_trap s) in
      payload (before_boot_payload mhartid target told) target

  abbrev of_restore : Option (Machine F × Exit) → Outcome F
  of_restore none = stopped
  of_restore (some (t, e)) = restored t e

  -- `multicore_decode_restore` does not come back, so the signal after its call is never given.
  carry_out : Symbols → Build → Platform → ℕ → ℕ → ℕ → Plan → Machine F → Outcome F
  carry_out y b p cpu_id start_address counter none s = boot_payload y p.mhartid start_address s
  carry_out y b p cpu_id start_address counter (some (header, layout)) s = of_restore (
      multicore_decode_restore b p ((start_address + header.cpt_offset) % 2 ^ 64)
        header.single_core_size cpu_id layout counter s)

  pub gcpt_c_start : Symbols → Decoder → Mode → Build → Platform → ℕ → ℕ → ℕ → Machine F → Outcome F
  unfolding carry_out
  gcpt_c_start y d mode b p cpu_id start_address counter s =
      let (chosen, t) = start y d mode cpu_id start_address s in
      carry_out y b p cpu_id start_address counter chosen t
