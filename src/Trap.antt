-- ===== src/Trap.antt =====
-- src/gcpt_trap.c: the trap handler of the restorer, and switching it on and off.
pub mod Window
pub mod Tests
use lib_checkpoint.Common.{ℕ, ◌+◌, ◌-◌, ◌^◌, List, [], ◌∷◌, bit_and, bit_or}
use lib_checkpoint.Console.{mt_print, signal, gcpt_get_trap}
use lib_checkpoint.Encoding.{csr_mstatus, mstatus_mie}
use lib_checkpoint.Hart.{CsrFile, Machine, emit}

abbrev pub csr_mtvec : ℕ
csr_mtvec = 0x305

abbrev pub csr_mepc : ℕ
csr_mepc = 0x341

abbrev pub csr_mcause : ℕ
csr_mcause = 0x342

abbrev pub csr_mtval : ℕ
csr_mtval = 0x343

-- `~MSTATUS_MIE`, on 64 bits
abbrev pub not_mie : ℕ
not_mie = 2 ^ 64 - 1 - mstatus_mie

module _ {F : CsrFile} where
  open F use {read, write}

  pub gcpt_trap_handler : Machine F → Machine F
  gcpt_trap_handler s =
      let s1 : Machine F = emit (mt_print "mepc:    0x%lx\n" (read s.csr csr_mepc ∷ [])) s in
      let s2 : Machine F = emit (mt_print "mtval    0x%lx\n" (read s.csr csr_mtval ∷ [])) s1 in
      let s3 : Machine F = emit (mt_print "mcause   0x%lx\n" (read s.csr csr_mcause ∷ [])) s2 in
      let s4 : Machine F = emit (mt_print "mstatus  0x%lx\n" (read s.csr csr_mstatus ∷ [])) s3 in
      emit (signal gcpt_get_trap) (emit (mt_print "Get gcpt trap\n" []) s4)

  -- `gcpt_trap` is the address of the entry in src/trap.S.
  unfoldable pub enable_gcpt_trap : ℕ → Machine F → Machine F
  enable_gcpt_trap gcpt_trap s =
      let mtvec = bit_and gcpt_trap 0xFFFFFFFFFFFFFFFC in
      let mstatus = bit_or (read s.csr csr_mstatus) mstatus_mie in
      record s { csr = write (write s.csr csr_mstatus mstatus) csr_mtvec mtvec }

  unfoldable pub disable_gcpt_trap : Machine F → Machine F
  disable_gcpt_trap s =
      let mstatus = bit_and (read s.csr csr_mstatus) not_mie in
      record s { csr = write (write s.csr csr_mstatus mstatus) csr_mtvec 0 }
