-- ===== src/Boot/Registers.antt =====
-- The registers of every kind but the integers, from the entry of a hart to the program that was saved.
use lib_checkpoint.Common.{
  ℕ, zero, suc, ◌+◌, ◌*◌, ◌%◌, ◌^◌, ◌≤◌, ◌<◌, ◌≡◌, ◌∙◌, ◌==◌, if◌then◌else◌, ap, arith, false, some,
  String, List, [], ◌∷◌, All, get_elem?,
}
use lib_checkpoint.Memory.{load64}
use lib_checkpoint.CsrLists.{csrs}
use lib_checkpoint.Layout.{CheckpointHeader, Memlayout, get_core_memlayout}
use lib_checkpoint.Layout.Regions.{core_regions-Within}
use lib_checkpoint.Hart.{CsrFile, Machine}
use lib_checkpoint.Registers.{
  csr_slot, vector_bytes, restore_mtime, restore_int_vector_mret, restore_int_vector_jump,
}
use lib_checkpoint.Registers.Csrs.{IsLast}
use lib_checkpoint.Restore.{
  Build, Platform, Exit, is_cpu, restore_state, restore_clock, restore_check, leave,
  single_core_rvv_rvh_rvgc_restore,
}
use lib_checkpoint.Restore.Image.{
  IsClear, flags, restore_state-csr, restore_state-fpr, restore_state-vreg,
}
use lib_checkpoint.Restore.Resume.{finished}
use lib_checkpoint.Boot.{Mode, Decoder, Symbols, restored, gcpt_c_start, start}
use lib_checkpoint.Boot.Resume.{IsPlaced, slot_lem, ends_restored}

small_at :
    (t : List (String × ℕ)) (i : ℕ) (name : String) (a : ℕ)
    → All (λ (e : String × ℕ). e.1 < 4096) t
    → get_elem? t i ≡ some (name, a)
    → a < 4096
small_at [] i name a ok at_i = ground arith
small_at ((n, b) ∷ t) zero name a ok at_i = ground (arith, ok.0)
small_at (x ∷ t) (suc i) name a ok at_i = small_at t i name a ok.1 at_i

-- A hart on its way out changes its integer registers alone.
module _ {F : CsrFile} (p : Platform) (cpu_id : ℕ) (l : Memlayout) (counter : ℕ)
    (s : Machine F) where
  finished-csr : (finished p cpu_id l counter s).0.csr ≡ (restore_state p cpu_id l s).0.csr
  unfolding single_core_rvv_rvh_rvgc_restore leave restore_clock restore_check restore_mtime
      restore_int_vector_mret restore_int_vector_jump
  finished-csr = ground arith

  finished-fpr : (finished p cpu_id l counter s).0.fpr ≡ (restore_state p cpu_id l s).0.fpr
  unfolding single_core_rvv_rvh_rvgc_restore leave restore_clock restore_check restore_mtime
      restore_int_vector_mret restore_int_vector_jump
  finished-fpr = ground arith

  finished-vreg : (finished p cpu_id l counter s).0.vreg ≡ (restore_state p cpu_id l s).0.vreg
  unfolding single_core_rvv_rvh_rvgc_restore leave restore_clock restore_check restore_mtime
      restore_int_vector_mret restore_int_vector_jump
  finished-vreg = ground arith

module _ {F : CsrFile} (p : Platform) (base_addr single_core_size cpu_id : ℕ) (l : Memlayout)
    (s : Machine F) (placed : IsPlaced p.core0 base_addr single_core_size cpu_id l) where
  open placed use {laid, fits, has_slot, slots_fit, apart}

  abbrev mine_of : Memlayout
  mine_of = get_core_memlayout base_addr single_core_size cpu_id l

  csr-IsClear :
      (a : ℕ) → a < 4096 → IsClear p cpu_id mine_of s (csr_slot mine_of.csr_reg_cpt_addr a) 8
  csr-IsClear a lt = ground (
    arith,
    slot_lem p base_addr single_core_size cpu_id l s placed,
    core_regions-Within base_addr single_core_size cpu_id l laid fits,
  )

  float-IsClear :
      (j : ℕ) → j < 32 → IsClear p cpu_id mine_of s (mine_of.float_reg_cpt_addr + j * 8) 8
  float-IsClear j lt = ground (
    arith,
    slot_lem p base_addr single_core_size cpu_id l s placed,
    core_regions-Within base_addr single_core_size cpu_id l laid fits,
  )

  vector-IsClear :
      (j : ℕ)
      → j < 32
      → p.vlenb ≤ 16
      → IsClear p cpu_id mine_of s (mine_of.vector_reg_cpt_addr + j * 16) p.vlenb
  vector-IsClear j lt short = ground (
    arith,
    slot_lem p base_addr single_core_size cpu_id l s placed,
    core_regions-Within base_addr single_core_size cpu_id l laid fits,
  )

module _ {F : CsrFile} (y : Symbols) (d : Decoder) (mode : Mode) (b : Build) (p : Platform)
    (cpu_id start_address counter : ℕ) (s : Machine F) (h : CheckpointHeader) (l : Memlayout)
    (placed : IsPlaced p.core0
      ((start_address + h.cpt_offset) % 2 ^ 64)
      h.single_core_size
      cpu_id
      l) where
  abbrev from : Machine F
  from = (start y d mode cpu_id start_address s).1

  abbrev own : Memlayout
  own = get_core_memlayout ((start_address + h.cpt_offset) % 2 ^ 64) h.single_core_size cpu_id l

  -- A hart that has chosen a checkpoint, is neither the one to be stopped nor the one to be
  -- displayed, whose image and slot are in memory apart from each other, and whose vector registers
  -- have up to 16 bytes, goes on with the state of the image. A CSR of `CSRS` that no later entry
  -- shares, and whose saved value is legal, has that value; a float register has it if the flag for
  -- floats is set, and a vector register if that for vectors is, and else what it had.
  pub gcpt_c_start_registers :
      (i : ℕ) (name : String) (a j : ℕ)
      → (start y d mode cpu_id start_address s).0 ≡ some (h, l)
      → is_cpu b.stop_cpu cpu_id ≡ false
      → is_cpu b.display cpu_id ≡ false
      → p.vlenb ≤ 16
      → j < 32
      → get_elem? csrs i ≡ some (name, a)
      → IsLast F csrs i a
      → F.Legal a (load64 from.mem (csr_slot own.csr_reg_cpt_addr a))
      → (t : Machine F) × (e : Exit) × (gcpt_c_start y d mode b p cpu_id start_address counter s
          ≡ restored t e)
        × (F.read t.csr a ≡ load64 from.mem (csr_slot own.csr_reg_cpt_addr a))
        × (t.fpr j ≡ (
            if (flags p cpu_id own from).rvf_could_restore == 0
            then from.fpr j
            else load64 from.mem (own.float_reg_cpt_addr + j * 8)))
        × (t.vreg j ≡ (
            if (flags p cpu_id own from).rvv_could_restore == 0
            then from.vreg j
            else vector_bytes p.vlenb (own.vector_reg_cpt_addr + j * 16) from.mem))
  gcpt_c_start_registers i name a j chosen runs hidden short lt at_i last legal =
      let out = finished p cpu_id own counter from in
      let start_base = (start_address + h.cpt_offset) % 2 ^ 64 in
      let small = small_at csrs i name a (omega arith) at_i in
      (
        out.0,
        out.1,
        ends_restored y d mode b p cpu_id start_address counter s h l chosen runs hidden,
        ap (λ (c : F.State). F.read c a) (finished-csr p cpu_id own counter from)
            ∙ restore_state-csr p cpu_id own from i name a at_i last legal
                (csr-IsClear p start_base h.single_core_size cpu_id l from placed a small),
        ap (λ (r : ℕ → ℕ). r j) (finished-fpr p cpu_id own counter from)
            ∙ restore_state-fpr p cpu_id own from j lt
                (float-IsClear p start_base h.single_core_size cpu_id l from placed j lt),
        ap (λ (r : ℕ → List ℕ). r j) (finished-vreg p cpu_id own counter from)
            ∙ restore_state-vreg p cpu_id own from j lt
                (vector-IsClear p start_base h.single_core_size cpu_id l from placed j lt short),
      )
