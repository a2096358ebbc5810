-- ===== src/Boot/Tests.antt =====
-- A decoder that reads nothing but the first byte of the buffer: the status of both messages.
use lib_checkpoint.Common.{
  ℕ, ◌≡◌, ◌↔◌, refl, arith, true, false, none, some, ◌==◌, if◌then◌else◌, bit_and,
}
use lib_checkpoint.Encoding.{csr_mstatus}
use lib_checkpoint.Layout.{
  CheckpointHeader, header_init_zero, memlayout_init_zero, default_multicore_layout,
  multicore_default_header,
}
use lib_checkpoint.Hart.{Machine}
use lib_checkpoint.Hart.Sample.{plain_csrs, blank}
use lib_checkpoint.Trap.{csr_mtvec, not_mie, enable_gcpt_trap}
use lib_checkpoint.Restore.{Build, Platform}
use lib_checkpoint.Boot.{
  get_memory_buffer, default_config, Decoder, Symbols, magic_number, memory_start,
  set_checkpoint_header, plan_default, header_decode, memlayout_decode, plan, enter_bss, start,
  payload, gcpt_c_start,
}
use lib_checkpoint.Boot.Decision.{plan_default_iff, gcpt_c_start_boots}

abbrev pub decoder : Decoder
decoder = record {
  Stream = ℕ;
  istream_from_buffer = λ a size m. m a;
  decode_header = λ s h. if s == 1 then (true, multicore_default_header, s) else (false, h, s);
  decode_memlayout = λ s l. if s == 1 then (true, default_multicore_layout, s) else (false, l, s);
}

abbrev pub symbols : Symbols
symbols = record {
  s_bss = 0x80010000;
  e_bss = 0x80010008;
  bss_lock = 0x80010000;
  gcpt_trap = 0x80000200;
  payload_bin = 0x80100000;
}

abbrev pub build : Build
build = record { stop_cpu = none; display = some 7 }

abbrev platform : Platform
platform = record { core0 = 0x80000100; mhartid = 1; vlenb = 16 }

abbrev hart : ℕ → Machine plain_csrs
hart status = blank (λ _. status)

plan_default_iff_example :
    ((plan decoder default_config 0x80000000 (hart 1)).0
      ≡ some (multicore_default_header, default_multicore_layout))
    ↔ ((decoder.decode_header 1 header_init_zero).0 ≡ true)
      × ((decoder.decode_header 1 header_init_zero).1.magic_number ≡ magic_number)
      × ((decoder.decode_memlayout 1 memlayout_init_zero).0 ≡ true)
      × ((decoder.decode_header 1 header_init_zero).1 ≡ multicore_default_header)
      × ((decoder.decode_memlayout 1 memlayout_init_zero).1 ≡ default_multicore_layout)
plan_default_iff_example =
    plan_default_iff decoder 0x80000000 (hart 1) multicore_default_header default_multicore_layout

abbrev fixed_header : ℕ → CheckpointHeader
fixed_header cpt_offset = set_checkpoint_header header_init_zero cpt_offset 0x100000

buffer_test : (get_memory_buffer true ≡ 0x10000000) × (get_memory_buffer false ≡ memory_start)
unfolding get_memory_buffer
buffer_test = (refl, refl)

unchosen : (start symbols decoder default_config 1 0x80000000 (hart 0)).0 ≡ none
unfolding start enter_bss plan plan_default header_decode memlayout_decode enable_gcpt_trap
unchosen = refl

abbrev told : ℕ
told = (start symbols decoder default_config 1 0x80000000 (hart 0)).1.csr csr_mstatus

gcpt_c_start_boots_example :
    (t : Machine plain_csrs) × (gcpt_c_start symbols decoder default_config build platform 1
        0x80000000 0
        (hart 0)
      ≡ payload t (if 0x80000000 == memory_start then 0x80100000 else memory_start))
    × (t.gpr 10 ≡ 1)
    × (t.gpr 11 ≡ 0)
    × (t.csr csr_mtvec ≡ 0)
    × (t.csr csr_mstatus ≡ bit_and told not_mie)
gcpt_c_start_boots_example =
    gcpt_c_start_boots symbols decoder default_config build platform 1 0x80000000 0 (hart 0)
      unchosen tt tt (λ e. omega arith)
