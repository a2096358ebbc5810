-- ===== src/Restore/Image.antt =====
-- What `restore_state` takes from the image of a core, and what it writes to memory on the way.
use lib_checkpoint.Common.{
  ℕ, ◌+◌, ◌*◌, ◌≤◌, ◌<◌, ◌≡◌, ◌⊎◌, ◌∙◌, refl, ap, sym, zero, suc, arith, some, get_elem?, String,
  if◌then◌else◌, ◌==◌,
}
use mathlib.Core.Path.{subst}
use lib_checkpoint.Memory.{Memory, load64, store32, store64}
use lib_checkpoint.Memory.Laws.{store32_outside, store64_outside, load64-store32_apart}
use lib_checkpoint.Encoding.{csr_misa}
use lib_checkpoint.CsrLists.{csrs}
use lib_checkpoint.Layout.{Memlayout}
use lib_checkpoint.Jal.{patch_address, jal_word}
use lib_checkpoint.Extensions.{Flags, no_flags, checkpoint_ext_check}
use lib_checkpoint.Hart.{CsrFile, Machine}
use lib_checkpoint.Registers.{
  csr_slot, vector_bytes, restore_csr_vector, rvh_csr_restore, rvv_restore, restore_float_vector,
  restore_mtime_cmp,
}
use lib_checkpoint.Registers.Files.{all_floats, all_vectors}
use lib_checkpoint.Registers.Csrs.{IsLast, restore_csr_vector_lem}
use lib_checkpoint.Restore.{
  Platform, mtimecmp_device, mtimecmp_source, restore_extensions, restore_state,
}

vector_bytes-store32 :
    (n a : ℕ) (m : Memory) (pc v : ℕ)
    → (a + n ≤ pc) ⊎ (pc + 4 ≤ a)
    → vector_bytes n a (store32 m pc v) ≡ vector_bytes n a m
unfolding vector_bytes
vector_bytes-store32 zero a m pc v apart = refl
vector_bytes-store32 (suc n) a m pc v apart =
    ground (arith, store32_outside m pc v a, vector_bytes-store32 n (a + 1) m pc v)

module _ {F : CsrFile} (p : Platform) (cpu_id : ℕ) (l : Memlayout) (s : Machine F) where
  -- the flags that `checkpoint_ext_check` finds
  abbrev pub flags : Flags
  flags =
      (checkpoint_ext_check (F.read s.csr csr_misa) s.mem l.csr_reg_cpt_addr l.mode_cpt_addr
        no_flags).0

  -- memory with the slot of the core patched, where the core resumes by a jump
  abbrev pub patched : Memory
  patched =
      if flags.should_jump_to_mepc == 0
      then s.mem
      else store32 s.mem (patch_address p.core0 cpu_id)
          (jal_word (patch_address p.core0 cpu_id) (load64 s.mem l.pc_cpt_addr))

  pub restore_state-flags : (restore_state p cpu_id l s).1 ≡ flags
  unfolding restore_state restore_extensions
  restore_state-flags = refl

  pub restore_state-mem :
      (restore_state p cpu_id l s).0.mem
      ≡ store64 patched (mtimecmp_device cpu_id) (load64 patched (mtimecmp_source cpu_id l))
  unfolding restore_state restore_extensions restore_csr_vector rvh_csr_restore rvv_restore
      restore_float_vector restore_mtime_cmp
  restore_state-mem = ground arith

  -- The `n` bytes from `a` on do not meet the word of the slot.
  abbrev pub IsClear : ℕ → ℕ → Type 0
  IsClear a n = (a + n ≤ patch_address p.core0 cpu_id) ⊎ (patch_address p.core0 cpu_id + 4 ≤ a)

  pub patched-load64 : (a : ℕ) → IsClear a 8 → load64 patched a ≡ load64 s.mem a
  patched-load64 a clear = ground (
    arith,
    load64-store32_apart s.mem (patch_address p.core0 cpu_id)
        (jal_word (patch_address p.core0 cpu_id) (load64 s.mem l.pc_cpt_addr)) a,
  )

  patched-vector_bytes : (n a : ℕ) → IsClear a n → vector_bytes n a patched ≡ vector_bytes n a s.mem
  patched-vector_bytes n a clear = ground (
    arith,
    vector_bytes-store32 n a s.mem (patch_address p.core0 cpu_id)
        (jal_word (patch_address p.core0 cpu_id) (load64 s.mem l.pc_cpt_addr)),
  )

  restore_extensions-load64 :
      (a : ℕ) → IsClear a 8 → load64 (restore_extensions p cpu_id l s).0.mem a ≡ load64 s.mem a
  unfolding restore_extensions rvh_csr_restore rvv_restore restore_float_vector
  restore_extensions-load64 a clear = ground (arith, patched-load64 a clear)

  -- `restore_state` changes memory at the word of the core's slot and in the core's `mtimecmp`
  -- register, and nowhere else.
  pub restore_state_frame :
      (j : ℕ)
      → IsClear j 1
      → (j < mtimecmp_device cpu_id) ⊎ (mtimecmp_device cpu_id + 8 ≤ j)
      → (restore_state p cpu_id l s).0.mem j ≡ s.mem j
  restore_state_frame j clear off = ground (
    arith,
    ap (λ (m : Memory). m j) restore_state-mem,
    store64_outside patched (mtimecmp_device cpu_id) (load64 patched (mtimecmp_source cpu_id l)) j,
    store32_outside s.mem (patch_address p.core0 cpu_id)
        (jal_word (patch_address p.core0 cpu_id) (load64 s.mem l.pc_cpt_addr)) j,
  )

  -- After `restore_state`, a float register holds the image if the flag for floats is set, as far
  -- as that is not where the slot is patched, and is left alone otherwise.
  pub restore_state-fpr :
      (j : ℕ)
      → j < 32
      → IsClear (l.float_reg_cpt_addr + j * 8) 8
      → (restore_state p cpu_id l s).0.fpr j ≡ (
          if flags.rvf_could_restore == 0
          then s.fpr j
          else load64 s.mem (l.float_reg_cpt_addr + j * 8))
  unfolding restore_state restore_extensions restore_csr_vector rvh_csr_restore rvv_restore
      restore_mtime_cmp restore_float_vector
  restore_state-fpr j h clear = ground (
    arith,
    all_floats l.float_reg_cpt_addr patched s.fpr j h,
    patched-load64 (l.float_reg_cpt_addr + j * 8) clear,
  )

  -- After `restore_state`, a vector register holds the image if the flag for vectors is set, as
  -- far as that is not where the slot is patched, and is left alone otherwise.
  pub restore_state-vreg :
      (j : ℕ)
      → j < 32
      → IsClear (l.vector_reg_cpt_addr + j * 16) p.vlenb
      → (restore_state p cpu_id l s).0.vreg j ≡ (
          if flags.rvv_could_restore == 0
          then s.vreg j
          else vector_bytes p.vlenb (l.vector_reg_cpt_addr + j * 16) s.mem)
  unfolding restore_state restore_extensions restore_csr_vector rvh_csr_restore rvv_restore
      restore_mtime_cmp restore_float_vector
  restore_state-vreg j h clear = ground (
    arith,
    all_vectors p.vlenb l.vector_reg_cpt_addr patched s.vreg j h,
    patched-vector_bytes p.vlenb (l.vector_reg_cpt_addr + j * 16) clear,
  )

  -- After `restore_state`, every CSR of `CSRS` that no later entry shares, whose saved value is
  -- legal and not where the slot is patched, holds the value that the image had.
  pub restore_state-csr :
      (i : ℕ) (name : String) (a : ℕ)
      → get_elem? csrs i ≡ some (name, a)
      → IsLast F csrs i a
      → F.Legal a (load64 s.mem (csr_slot l.csr_reg_cpt_addr a))
      → IsClear (csr_slot l.csr_reg_cpt_addr a) 8
      → F.read (restore_state p cpu_id l s).0.csr a ≡ load64 s.mem (csr_slot l.csr_reg_cpt_addr a)
  unfolding restore_state restore_mtime_cmp restore_csr_vector
  restore_state-csr i name a at_i last legal clear =
      let before = (restore_extensions p cpu_id l s).0 in
      let same : load64 before.mem (csr_slot l.csr_reg_cpt_addr a)
          ≡ load64 s.mem (csr_slot l.csr_reg_cpt_addr a) =
        restore_extensions-load64 (csr_slot l.csr_reg_cpt_addr a) clear in
      (restore_csr_vector_lem before l.csr_reg_cpt_addr i name a at_i last
        (subst (F.Legal a) (sym same) legal)).0
      ∙ same
