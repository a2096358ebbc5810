-- ===== src/Layout/Regions.antt =====
-- The regions of a core's state: they follow one another in a layout, so those of two cores never
-- meet.
use lib_checkpoint.Common.{ℕ, ◌+◌, ◌*◌, ◌^◌, ◌≤◌, List, [], ◌∷◌, arith, All}
use lib_checkpoint.Layout.{Memlayout, core_offset, get_core_memlayout}

-- A start and a length in bytes.
pub record Region : Type 0 where
  pub start : ℕ
  pub size : ℕ

abbrev region : ℕ → ℕ → Region
region start size = record { start = start; size = size }

-- What the restorer reads through each field: 32 integer and 32 float registers, the 4096 CSRs,
-- 32 vector registers of 16 bytes, and a double word for any other field.
abbrev pub regions : Memlayout → List Region
regions l =
    region l.magic_number_cpt_addr 8
    ∷ region l.pc_cpt_addr 8
    ∷ region l.mode_cpt_addr 8
    ∷ region l.mtime_cpt_addr 8
    ∷ region l.mtime_cmp_cpt_addr 8
    ∷ region l.misc_done_cpt_addr 8
    ∷ region l.misc_reserve 8
    ∷ region l.int_reg_cpt_addr (32 * 8)
    ∷ region l.int_reg_done 8
    ∷ region l.float_reg_cpt_addr (32 * 8)
    ∷ region l.float_reg_done 8
    ∷ region l.csr_reg_cpt_addr (4096 * 8)
    ∷ region l.csr_reg_done 8
    ∷ region l.csr_reserve 8
    ∷ region l.vector_reg_cpt_addr (32 * 16)
    ∷ region l.vector_reg_done 8
    ∷ []

abbrev pub Within : ℕ → ℕ → Region → Type 0
Within lo hi r = (lo ≤ r.start) × (r.start + r.size ≤ hi)

-- Each region ends where a later one begins, or before.
abbrev pub Chain : List Region → Type 0
Chain [] = Unit
Chain (r ∷ rs) = All (λ s. r.start + r.size ≤ s.start) rs × Chain rs

-- A layout whose regions follow one another and end within the space of one core.
pub record IsLaidOut (single_core_size : ℕ) (l : Memlayout) : Type 0 where
  pub magic_number_fits : l.magic_number_cpt_addr + 8 ≤ l.pc_cpt_addr
  pub pc_fits : l.pc_cpt_addr + 8 ≤ l.mode_cpt_addr
  pub mode_fits : l.mode_cpt_addr + 8 ≤ l.mtime_cpt_addr
  pub mtime_fits : l.mtime_cpt_addr + 8 ≤ l.mtime_cmp_cpt_addr
  pub mtime_cmp_fits : l.mtime_cmp_cpt_addr + 8 ≤ l.misc_done_cpt_addr
  pub misc_done_fits : l.misc_done_cpt_addr + 8 ≤ l.misc_reserve
  pub misc_reserve_fits : l.misc_reserve + 8 ≤ l.int_reg_cpt_addr
  pub int_fits : l.int_reg_cpt_addr + 32 * 8 ≤ l.int_reg_done
  pub int_done_fits : l.int_reg_done + 8 ≤ l.float_reg_cpt_addr
  pub float_fits : l.float_reg_cpt_addr + 32 * 8 ≤ l.float_reg_done
  pub float_done_fits : l.float_reg_done + 8 ≤ l.csr_reg_cpt_addr
  pub csr_fits : l.csr_reg_cpt_addr + 4096 * 8 ≤ l.csr_reg_done
  pub csr_done_fits : l.csr_reg_done + 8 ≤ l.csr_reserve
  pub csr_reserve_fits : l.csr_reserve + 8 ≤ l.vector_reg_cpt_addr
  pub vector_fits : l.vector_reg_cpt_addr + 32 * 16 ≤ l.vector_reg_done
  pub core_fits : l.vector_reg_done + 8 ≤ single_core_size

-- The regions of core `cpu_id` follow one another in its own `single_core_size` bytes, and no sum
-- wraps, when the layout fits a core and the cores fit the address space.
pub core_regions-Within :
    (base_addr single_core_size cpu_id : ℕ) (l : Memlayout)
    → IsLaidOut single_core_size l
    → base_addr + (cpu_id + 1) * single_core_size ≤ 2 ^ 64
    → All
        (Within
          (base_addr + cpu_id * single_core_size)
          (base_addr + (cpu_id + 1) * single_core_size))
        (regions (get_core_memlayout base_addr single_core_size cpu_id l))
unfolding get_core_memlayout core_offset
core_regions-Within base_addr single_core_size cpu_id l laid fits = omega arith

-- Where the layout fits a core and the cores fit the address space, the regions of core `cpu_id`
-- follow one another without overlap.
pub core_regions-Chain :
    (base_addr single_core_size cpu_id : ℕ) (l : Memlayout)
    → IsLaidOut single_core_size l
    → base_addr + (cpu_id + 1) * single_core_size ≤ 2 ^ 64
    → Chain (regions (get_core_memlayout base_addr single_core_size cpu_id l))
unfolding get_core_memlayout core_offset
core_regions-Chain base_addr single_core_size cpu_id l laid fits = omega arith

-- Every region of the first list ends before each of the second begins.
abbrev pub Before : List Region → List Region → Type 0
Before rs ss = All (λ r. All (λ s. r.start + r.size ≤ s.start) ss) rs
