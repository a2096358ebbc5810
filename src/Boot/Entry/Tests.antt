-- ===== src/Boot/Entry/Tests.antt =====
-- A restorer at the start of DRAM with its flag in place, and one that is cut off before it.
use lib_checkpoint.Common.{◌+◌, ◌≤◌, ◌≡◌, ◌⊎◌, refl, arith, update}
use lib_checkpoint.Memory.{Memory, load32, load64, store64}
use lib_checkpoint.Console.{signal, gcpt_incomplete}
use lib_checkpoint.Hart.{emit}
use lib_checkpoint.Hart.Sample.{blank}
use lib_checkpoint.Boot.Entry.{
  Labels, stack_space, stack_pointer, check_registers, incomplete, boot_check,
}
use lib_checkpoint.Boot.Entry.Stacks.{stacks_apart}

abbrev labels : Labels
labels = record {
  gcpt_begin = 0x80000000;
  gcpt_stack = 0x80020000;
  read_complete_flag = 0x800f0000;
  entry_return = 0x80001020;
}

abbrev whole : Memory
whole = store64 (λ _. 0) 0x800f0000 0xcaff

cut_test :
    boot_check labels 3 (blank (λ _. 0))
    ≡ incomplete (
        emit
          (signal gcpt_incomplete)
          (record (blank (λ _. 0)) { gpr = update (check_registers labels 0 (λ _. 0)) 10 2 }))
unfolding boot_check load64 load32
cut_test = refl

stacks_apart_example :
    (0x80020000 + 4096 ≤ stack_pointer labels 0)
    × (stack_pointer labels 0 ≤ 0x80020000 + stack_space)
    × ((stack_pointer labels 0 + 4096 ≤ stack_pointer labels 127)
        ⊎ (stack_pointer labels 127 + 4096 ≤ stack_pointer labels 0))
stacks_apart_example =
    stacks_apart labels 0 127 (omega arith) (omega arith) (omega arith) (λ e. omega arith)
