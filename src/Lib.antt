-- ===== src/Lib.antt =====
-- LibCheckpoint restores the state of RISC-V harts from an image in memory. A hart enters by
-- src/boot.S, decides in src/gcpt.c whether memory holds a checkpoint, and then either boots the
-- payload or calls src/decode_restore.c, which finds the layout of its core, loads every kind of
-- register by a routine of src/restore.S, meets the other cores, and leaves for the program that was
-- saved: by `mret`, or, if that ran in machine mode, over a `jal` that the code has written into a
-- slot of its own.
--
-- The files, and the code they model:
--   Boot        src/gcpt.c: `gcpt_c_start` with its three modes (`configure --mode`), the checks of
--               the magic numbers, the two decodings; `before_boot_payload` of src/boot.S. Boot/Entry
--               is the entry of src/boot.S, Boot/Handover the wait for `bss_lock`, Boot/Resume and
--               Boot/Registers the whole way from the choice to the program that was saved,
--               Boot/Range the range of what is left in the registers, and Boot/Local what the
--               choice reads of the memory
--   Restore     src/decode_restore.c: `multicore_decode_restore` and
--               `single_core_rvv_rvh_rvgc_restore`, cut at the meeting of the cores
--               (`restore_state`, `restore_clock`, `leave`)
--   Barrier     the meeting: `globash_restore_lock` (include/spinlock.h),
--               `global_atomic_restore_counter` and `release_restore`
--   Cluster     several harts in `single_core_rvv_rvh_rvgc_restore` on one memory: the blocks of
--               Restore and the accesses of Barrier put together; Cluster/Decision adds the choice
--               of a hart that comes late
--   Spinlock    include/spinlock.h, with the operations for a build without atomic instructions
--   Bits        include/bits.h: rounding, choice and the fields of a word
--   Printing    `mt_printf` of src/utils.c, by its accesses, and the machine it implements
--   Extensions  `checkpoint_ext_check`
--   Jal         `generate_jal`, `is_valid_imm` and the patch of a slot
--   Registers   src/restore.S and the macros of include/csr.h
--   Layout      include/checkpoint.pb.h, include/cpt_default_values.h, `get_core_memlayout`
--   Display     `display_checkpoint_registers` and `regs` of include/decode_restore.h
--   Trap        src/gcpt_trap.c
--   Utils       the loops of src/utils.c
--   CsrLists    the lists `CSRS` and `HCSRS` of include/csr.h
--   Encoding    constants of include/encoding.h, its CSR numbers and its list of CSRs;
--               Encoding/Causes has the causes of traps, Encoding/Fields the fields of the
--               registers and their values, Encoding/Insns the patterns of the instructions
--   Console     what is printed and signalled (include/gcpt_trap.h), as a list of events
--   Memory      loads and stores, little-endian, on a memory that maps an address to a byte
--   Hart        the state of a hart, over a parameter for the CSRs
--   Common      numbers, lists, Boolean tests, bits, and signed 32-bit numbers
-- Below a file stand the modules for what is proved of it; `Tests` modules run it on inputs.
--
-- How state and operations correspond. A function of the code that changes registers or memory is a
-- function from `Machine` to `Machine`, with its result beside the state; what it prints is added to
-- the `log`. The parts call each other as the code does: `gcpt_c_start` runs `plan`, then
-- `multicore_decode_restore`, which runs `single_core_rvv_rvh_rvgc_restore` on the layout that
-- `get_core_memlayout` gives. That function takes the value of the shared counter that its hart
-- reads as an argument; Barrier has the shared variables, with a step for each access of a hart and
-- a schedule, any list of harts, for their order. There `restore_mtime` counts as one write of the
-- clock. Cluster puts the two together: there a hart runs the function block by block
-- on the memory that all share, and the accesses of the meeting are those of Barrier.
--
-- Parameters. CSRs have an interface (`CsrFile`): a legal value written to a register reads back,
-- and registers that are said to share no state do not change each other; a theorem names the
-- registers and values for which it needs this. The protobuf decoder, nanopb, is the interface
-- `Decoder`, of which nothing is assumed, but in Cluster/Decision that what it makes of a stream
-- depends on the bytes of its buffer alone. Addresses of the linker script, the number of the hart and
-- the length of a vector register are the records `Symbols` and `Platform`.
--
-- Numbers. An unsigned integer of the code is a natural number, with its wrap-around written out
-- where the code adds, shifts or casts. Addresses of single loads are sums that do not wrap. The
-- number of a hart is not negative. Loops take the rounds that are left, which is the bound of the
-- loop of the code, so no fuel is chosen. The spinning of a hart is a step that leaves it in place;
-- Spinlock/Loop takes the values that the hart sees instead. The word of `bss_lock` is taken to be
-- zero when the harts start, where a theorem says so.
--
-- Not modelled: src/printf.c, a copy of a third-party library, but for `_putchar`; the protobuf
-- decoder; the linker script and the build files; the hints and the assembler names of include/bits.h;
-- the copy of the payload that src/boot.S holds; memory order, since the atomics of the code are
-- sequentially consistent; and timing. In the parts but Printing, a call of `mt_printf` is one event
-- of the log.
pub mod Barrier
pub mod Bits
pub mod Boot
pub mod Cluster
pub mod Common
pub mod Console
pub mod CsrLists
pub mod Display
pub mod Encoding
pub mod Extensions
pub mod Hart
pub mod Jal
pub mod Layout
pub mod Memory
pub mod Printing
pub mod Registers
pub mod Restore
pub mod Spinlock
pub mod Trap
pub mod Utils
