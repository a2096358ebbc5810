-- ===== src/Display.antt =====
-- src/decode_restore.c, `display_checkpoint_registers`, and the names of CSRs in
-- include/decode_restore.h: what a build with `DISPLAY` prints of the image of a core.
pub mod Names
pub mod Tests
use lib_checkpoint.Common.{
  ℕ, zero, suc, ◌+◌, ◌-◌, ◌*◌, ◌%◌, String, Option, none, some, List, [], ◌∷◌, ◌++◌, ◌==◌,
  if◌then◌else◌,
}
use lib_checkpoint.Memory.{Memory, load64}
use lib_checkpoint.Layout.{Memlayout}
use lib_checkpoint.Console.{Event, print, print_named}

-- `csr_id2name_t`
pub record CsrIdToName : Type 0 where
  pub id : ℕ
  pub name : Option String  -- a null pointer is `none`

-- The entries of `regs` that have an initialiser: index, id and name.
abbrev pub named_regs : List (ℕ × ℕ × String)
named_regs =
    (0x100, 0x100, "sstatus")
    ∷ (0x105, 0x105, "stvec")
    ∷ (0x106, 0x106, "scounteren")
    ∷ (0x140, 0x140, "sscratch")
    ∷ (0x141, 0x141, "sepc")
    ∷ (0x142, 0x142, "scause")
    ∷ (0x14d, 0x14d, "stimecmp")
    ∷ (0x180, 0x180, "satp")
    ∷ (0x1c0, 0x1c0, "smte")
    ∷ (0x200, 0x200, "vsstatus")
    ∷ (0x300, 0x300, "mstatus")
    ∷ (0x301, 0x301, "misa")
    ∷ (0x302, 0x302, "medeleg")
    ∷ (0x303, 0x303, "mideleg")
    ∷ (0x304, 0x304, "mie")
    ∷ (0x305, 0x305, "mtvec")
    ∷ (0x306, 0x306, "mcounteren")
    ∷ (0x30a, 0x30a, "menvcfg")
    ∷ (0x310, 0x310, "mstatush")
    ∷ (0x31a, 0x31a, "menvcfgh")
    ∷ (0x320, 0x320, "mcountinhibit")
    ∷ (0x323, 0x323, "mhpmevent3")
    ∷ (0x324, 0x324, "mhpmevent4")
    ∷ (0x325, 0x325, "mhpmevent5")
    ∷ (0x326, 0x326, "mhpmevent6")
    ∷ (0x327, 0x327, "mhpmevent7")
    ∷ (0x328, 0x328, "mhpmevent8")
    ∷ (0x329, 0x329, "mhpmevent9")
    ∷ (0x32a, 0x32a, "mhpmevent10")
    ∷ (0x32b, 0x32b, "mhpmevent11")
    ∷ (0x32c, 0x32c, "mhpmevent12")
    ∷ (0x32d, 0x32d, "mhpmevent13")
    ∷ (0x32e, 0x32e, "mhpmevent14")
    ∷ (0x32f, 0x32f, "mhpmevent15")
    ∷ (0x330, 0x330, "mhpmevent16")
    ∷ (0x331, 0x331, "mhpmevent17")
    ∷ (0x332, 0x332, "mhpmevent18")
    ∷ (0x340, 0x340, "mscratch")
    ∷ (0x341, 0x341, "mepc")
    ∷ (0x342, 0x342, "mcause")
    ∷ (0x344, 0x344, "mip")
    ∷ (0x3a0, 0x3a0, "pmpcfg0")
    ∷ (0x3b0, 0x3b0, "pmpaddr0")
    ∷ (0x3b1, 0x3b1, "pmpaddr1")
    ∷ (0x3b2, 0x3b2, "pmpaddr2")
    ∷ (0x3b3, 0x3b3, "pmpaddr3")
    ∷ (0x3c0, 0x3c0, "mmte")
    ∷ (0x600, 0x600, "hstatus")
    ∷ (0x60a, 0x60a, "henvcfg")
    ∷ (0x61a, 0x61a, "henvcfgh")
    ∷ (0x646, 0x646, "hviprio1")
    ∷ (0x647, 0x647, "hviprio2")
    ∷ (0x7a1, 0x7a1, "tdata1")
    ∷ (0x7a4, 0x7a4, "tinfo")
    ∷ (0xb00, 0xb00, "mcycle")
    ∷ (0xb02, 0xb02, "minstret")
    ∷ (0xb03, 0xb03, "mhpmcounter3")
    ∷ (0xb80, 0xb80, "mcycleh")
    ∷ (0xb82, 0xb82, "minstreth")
    ∷ (0xc00, 0xc00, "cycle")
    ∷ (0xc01, 0xc01, "time")
    ∷ (0xc02, 0xc02, "instret")
    ∷ (0xc03, 0xc03, "hpmcounter3")
    ∷ (0xc22, 0xc22, "vlenb")
    ∷ (0xc80, 0xc80, "cycleh")
    ∷ (0xc82, 0xc82, "instreth")
    ∷ (0xda0, 0xda0, "scountovf")
    ∷ (0xdb0, 0xdb0, "stopi")
    ∷ []

-- An element with no initialiser is zero, its pointer null.
pub find_reg : ℕ → List (ℕ × ℕ × String) → CsrIdToName
find_reg i [] = record { id = 0; name = none }
find_reg i ((j, id, name) ∷ t) =
    if i == j then record { id = id; name = some name } else find_reg i t

-- `regs[i]`, for `i` below 4096
pub regs : ℕ → CsrIdToName
unfolding find_reg
regs i = find_reg i named_regs

-- The macro `DISPLAY_REGS` with `WRAP_WIDTH` 4: `left` registers from `i` on.
pub display_regs : ℕ → ℕ → String → ℕ → Memory → List Event
display_regs zero i format base m = []
display_regs (suc left) i format base m =
    print format (i ∷ load64 m (base + i * 8) ∷ [])
      ∷ (if (i + 1) % 4 == 0 then print "\n" [] ∷ [] else [])
    ++ display_regs left (i + 1) format base m

pub display_vector : ℕ → ℕ → ℕ → Memory → List Event
display_vector zero i base m = []
display_vector (suc left) i base m =
    (if (i + 1) % 2 == 0
      then print "[%lx]: 0x%016lx_%016lx\n"
          ((base + (i - 1) * 8) ∷ load64 m (base + (i - 1) * 8) ∷ load64 m (base + i * 8) ∷ [])
        ∷ []
      else [])
    ++ display_vector left (i + 1) base m

-- The body of the loop over the CSRs.
pub display_csr : ℕ → ℕ → List Event
unfolding regs
display_csr i val =
    if val == 0
    then []
    else if (regs i).id == i
    then print_named "csr id %x name: %s value %lx\n" i (regs i).name val ∷ []
    else print "csr id %x value %lx\n" (i ∷ val ∷ []) ∷ []

pub display_csrs : ℕ → ℕ → ℕ → Memory → List Event
unfolding display_csr
display_csrs zero i base m = []
display_csrs (suc left) i base m =
    display_csr i (load64 m (base + i * 8)) ++ display_csrs left (i + 1) base m

unfoldable pub display_checkpoint_registers : Memlayout → Memory → List Event
unfolding display_regs display_vector display_csrs
display_checkpoint_registers l m =
    print "Int Register display: \n" []
      ∷ display_regs 32 0 "gpr %04d value %016lx " l.int_reg_cpt_addr m
    ++ (print "Float Register display: \n" []
          ∷ display_regs 32 0 "fpr %04d value %016lx " l.float_reg_cpt_addr m
        ++ (print "Vector Register display: \n" []
              ∷ display_vector (32 * 2) 0 l.vector_reg_cpt_addr m
            ++ (print "Csr registers display\n" [] ∷ display_csrs 4096 0 l.csr_reg_cpt_addr m
                ++ (print "mtime_cmp registers memory: %lx %lx\n"
                      (load64 m l.mtime_cmp_cpt_addr ∷ l.mtime_cmp_cpt_addr ∷ [])
                    ∷ print "mtime registers memory: %lx %lx\n"
                        (load64 m l.mtime_cpt_addr ∷ l.mtime_cpt_addr ∷ [])
                    ∷ []))))
