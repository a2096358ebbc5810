-- ===== src/Boot/Entry.antt =====
-- src/boot.S: from `place_of_gcpt_size`, the first instruction, to the jump to `gcpt_c_start`. The
-- addresses of the labels are given by the linker.
pub mod Stacks
pub mod Tests
use lib_checkpoint.Common.{ℕ, ◌+◌, ◌-◌, ◌*◌, ◌%◌, ◌^◌, ◌==◌, if◌then◌else◌, update}
use lib_checkpoint.Memory.{load64}
use lib_checkpoint.Console.{signal, gcpt_incomplete}
use lib_checkpoint.Hart.{CsrFile, Machine, emit}

pub record Labels : Type 0 where
  pub gcpt_begin : ℕ
  pub gcpt_stack : ℕ
  pub read_complete_flag : ℕ
  pub entry_return : ℕ  -- `mv a1, t0` in `_entry`, where `get_restorer_entry_pc` goes back to

abbrev pub complete_flag : ℕ
complete_flag = 0xcaff

-- `.space 4096 * 128`
abbrev pub stack_space : ℕ
stack_space = 4096 * 128

-- `get_restorer_entry_pc`, which lies behind a jump and a word: `auipc t0, 0` and 8 less
abbrev pub restorer_entry_pc : Labels → ℕ
restorer_entry_pc y = (y.gcpt_begin + 8 + 2 ^ 64 - 0x8) % 2 ^ 64

-- `gcpt_stack` plus `mhartid << 12` plus 4096
pub stack_pointer : Labels → ℕ → ℕ
stack_pointer y mhartid = (y.gcpt_stack + (mhartid * 2 ^ 12 + 4096) % 2 ^ 64) % 2 ^ 64

-- `boot_check`: the registers `s0`, `t1` and `t2`
abbrev pub check_registers : Labels → ℕ → (ℕ → ℕ) → ℕ → ℕ
check_registers y flag gpr =
    update (update (update gpr 8 y.read_complete_flag) 6 flag) 7 complete_flag

-- `_entry`: what is left in `a0`, `sp`, `ra`, and, by `get_restorer_entry_pc`, in `t0` and `t1`, and
-- in `a1`
abbrev pub entry_registers : Labels → ℕ → (ℕ → ℕ) → ℕ → ℕ
entry_registers y mhartid gpr =
    let called =
      update (update (update gpr 10 mhartid) 2 (stack_pointer y mhartid)) 1 y.entry_return in
    update (update (update called 5 (restorer_entry_pc y)) 6 0x8) 11 (restorer_entry_pc y)

-- Either the image of the restorer is not all there, or the hart goes on in C with its arguments.
pub data Reset (F : CsrFile) : Type 0 where
  incomplete : Machine F → Reset F
  entered : Machine F → ℕ → ℕ → Reset F

module _ {F : CsrFile} where
  entry : Labels → ℕ → Machine F → Reset F
  entry y mhartid s =
      entered (record s { gpr = entry_registers y mhartid s.gpr }) mhartid (restorer_entry_pc y)

  pub boot_check : Labels → ℕ → Machine F → Reset F
  unfolding entry
  boot_check y mhartid s =
      let flag = load64 s.mem y.read_complete_flag in
      let s1 = record s { gpr = check_registers y flag s.gpr } in
      if flag == complete_flag
      then entry y mhartid s1
      else incomplete
          (emit (signal gcpt_incomplete) (record s1 { gpr = update s1.gpr 10 gcpt_incomplete }))
