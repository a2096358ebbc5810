-- ===== src/Boot/Decision.antt =====
-- When a hart restores its checkpoint and when it boots the payload, and in which state.
use lib_checkpoint.Common.{
  ℕ, ◌+◌, ◌%◌, ◌^◌, ◌≡◌, ◌↔◌, ◌∙◌, refl, arith, Bool, true, false, none, some, [], ◌∷◌, ◌==◌,
  if◌then◌else◌, bit_and,
}
use lib_checkpoint.Encoding.{csr_mstatus}
use lib_checkpoint.Console.{mt_print}
use lib_checkpoint.Layout.{
  CheckpointHeader, Memlayout, header_init_zero, memlayout_init_zero, get_core_memlayout,
}
use lib_checkpoint.Layout.Fields.{protobuf_buffer_size}
use lib_checkpoint.Hart.{CsrFile, Machine, emit}
use lib_checkpoint.Trap.{csr_mtvec, not_mie, disable_gcpt_trap}
use lib_checkpoint.Restore.{
  Build, Platform, Exit, is_cpu, single_core_rvv_rvh_rvgc_restore, multicore_decode_restore,
}
use lib_checkpoint.Boot.{
  Mode, default_config, Decoder, Symbols, magic_number, memory_start, Plan, header_decode,
  memlayout_decode, plan_default, plan, start, payload_address, restored, payload,
  before_boot_payload, boot_payload, gcpt_c_start,
}

module _ {F : CsrFile} (d : Decoder) (start_address : ℕ) (s : Machine F) where
  abbrev stream : d.Stream
  stream = d.istream_from_buffer start_address protobuf_buffer_size s.mem

  abbrev header_result : Bool × CheckpointHeader × d.Stream
  header_result = d.decode_header stream header_init_zero

  abbrev memlayout_result : Bool × Memlayout × d.Stream
  memlayout_result = d.decode_memlayout header_result.2 memlayout_init_zero

  -- In the default configuration a hart restores a checkpoint exactly when both messages decode
  -- and the header has the magic number, and then by the header and the layout that were decoded.
  pub plan_default_iff :
      (h : CheckpointHeader) (l : Memlayout)
      → ((plan d default_config start_address s).0 ≡ some (h, l)) ↔ (
          (header_result.0 ≡ true)
          × (header_result.1.magic_number ≡ magic_number)
          × (memlayout_result.0 ≡ true)
          × (header_result.1 ≡ h)
          × (memlayout_result.1 ≡ l))
  unfolding plan plan_default header_decode memlayout_decode
  plan_default_iff h l = ground arith

module _ {F : CsrFile} (y : Symbols) (d : Decoder) (mode : Mode) (b : Build) (p : Platform)
    (cpu_id start_address counter : ℕ) (s : Machine F) where
  abbrev begun : Plan × Machine F
  begun = start y d mode cpu_id start_address s

  pub gcpt_c_start_restores :
      (h : CheckpointHeader) (l : Memlayout)
      → begun.0 ≡ some (h, l)
      → is_cpu b.stop_cpu cpu_id ≡ false
      → is_cpu b.display cpu_id ≡ false
      → (t : Machine F) × (e : Exit) × (gcpt_c_start y d mode b p cpu_id start_address counter s
          ≡ restored t e)
        × (single_core_rvv_rvh_rvgc_restore p cpu_id
              (some (
                get_core_memlayout
                  ((start_address + h.cpt_offset) % 2 ^ 64)
                  h.single_core_size
                  cpu_id
                  l))
              counter
              begun.1
            ≡ (t, e))
  unfolding gcpt_c_start multicore_decode_restore
  gcpt_c_start_restores h l chosen runs hidden =
      let run =
        single_core_rvv_rvh_rvgc_restore p cpu_id
          (some (
            get_core_memlayout ((start_address + h.cpt_offset) % 2 ^ 64) h.single_core_size cpu_id
              l))
          counter begun.1 in
      (run.0, run.1, rw (chosen, runs, hidden), refl)

  -- A hart that has chosen none boots the payload: the one linked behind the restorer if the
  -- restorer runs from the start of DRAM, and else the one there. The payload gets the number of
  -- the hart and 0. If the two values written are legal and `mtvec` shares nothing with
  -- `mstatus`, the trap vector is by then off and `mstatus` as it was, but with machine
  -- interrupts disabled.
  pub gcpt_c_start_boots :
      begun.0 ≡ none
      → F.Legal csr_mtvec 0
      → F.Legal csr_mstatus (bit_and (F.read begun.1.csr csr_mstatus) not_mie)
      → F.Separate csr_mtvec csr_mstatus
      → (t : Machine F) × (gcpt_c_start y d mode b p cpu_id start_address counter s
          ≡ payload t (if start_address == memory_start then y.payload_bin else memory_start))
        × (t.gpr 10 ≡ p.mhartid)
        × (t.gpr 11 ≡ 0)
        × (F.read t.csr csr_mtvec ≡ 0)
        × (F.read t.csr csr_mstatus ≡ bit_and (F.read begun.1.csr csr_mstatus) not_mie)
  unfolding gcpt_c_start boot_payload before_boot_payload payload_address disable_gcpt_trap
  gcpt_c_start_boots no_plan legal legal' apart =
      let told : Machine F =
        emit (mt_print "Will boot payload from %p\n" (payload_address y start_address ∷ []))
          (disable_gcpt_trap begun.1) in
      (
        before_boot_payload p.mhartid (payload_address y start_address) told,
        rw no_plan refl,
        refl,
        refl,
        F.read-write _ _ _ legal,
        F.read-write_apart _ _ _ _ apart ∙ F.read-write _ _ _ legal',
      )
