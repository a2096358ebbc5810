-- ===== src/Console.antt =====
-- What the restorer tells the outside, in the order in which it does: the calls of `printf` and
-- `mt_printf` (src/printf.c, src/utils.c) with their format and arguments, and `nemu_signal`
-- (include/gcpt_trap.h). Texts are given by the format and its numeric arguments.
use lib_checkpoint.Common.{ℕ, String, Option, List}

pub data Event : Type 0 where
  print : String → List ℕ → Event
  mt_print : String → List ℕ → Event  -- under `mt_printf_lock`
  print_named : String → ℕ → Option String → ℕ → Event  -- with a `char *`, `none` if it is null
  signal : ℕ → Event
  clear_cache : ℕ → ℕ → Event  -- `__builtin___clear_cache`, from and up to

-- the signals of include/gcpt_trap.h
abbrev pub good_trap : ℕ
good_trap = 0x0

abbrev pub gcpt_incomplete : ℕ
gcpt_incomplete = 0x2

abbrev pub gcpt_get_trap : ℕ
gcpt_get_trap = 0x4

abbrev pub should_not_be_here : ℕ
should_not_be_here = 0x6

abbrev pub gcpt_get_bad_imm : ℕ
gcpt_get_bad_imm = 0x7
