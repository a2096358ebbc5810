-- ===== src/Registers/Csrs.antt =====
-- The CSRs after a list of them is written from its image: the last write of each stands.
use lib_checkpoint.Common.{
  ℕ, zero, suc, ◌<◌, ◌≡◌, ◌∙◌, refl, arith, String, [], ◌∷◌, some, get_elem?,
}
use lib_checkpoint.Encoding.Csrs.{CsrTable}
use lib_checkpoint.CsrLists.{csrs, hcsrs}
use lib_checkpoint.Memory.{Memory, load64}
use lib_checkpoint.Hart.{CsrFile, Machine}
use lib_checkpoint.Registers.{csr_slot, csr_loads, restore_csr_vector, rvh_csr_restore}

module _ (F : CsrFile) where
  open F use {State, read, write, Legal, Separate, read-write, read-write_apart}

  -- No entry of the table writes what `b` shares.
  abbrev pub IsApart : CsrTable → ℕ → Type 0
  IsApart t b = (j : ℕ) (n : String) (a : ℕ) → get_elem? t j ≡ some (n, a) → Separate a b

  csr_loads-apart :
      (t : CsrTable) (base : ℕ) (m : Memory) (s : State) (b : ℕ)
      → IsApart t b
      → read (csr_loads F t base m s) b ≡ read s b
  unfolding csr_loads
  csr_loads-apart [] base m s b apart = refl
  csr_loads-apart ((n, a) ∷ t) base m s b apart =
      csr_loads-apart t base m (write s a (load64 m (csr_slot base a))) b
        (λ j k c e. apart (suc j) k c e)
      ∙ read-write_apart s a (load64 m (csr_slot base a)) b (apart 0 n a refl)

  -- What follows entry `i` in the table leaves it alone.
  abbrev pub IsLast : CsrTable → ℕ → ℕ → Type 0
  IsLast t i a = (j : ℕ) (n : String) (b : ℕ) → i < j → get_elem? t j ≡ some (n, b) → Separate b a

  -- The value written first stands if nothing later shares its register.
  csr_loads_head :
      (t : CsrTable) (base : ℕ) (m : Memory) (s : State) (a v : ℕ)
      → IsApart t a
      → Legal a v
      → read (csr_loads F t base m (write s a v)) a ≡ v
  csr_loads_head t base m s a v apart legal =
      csr_loads-apart t base m (write s a v) a apart ∙ read-write s a v legal

  csr_loads_lem :
      (t : CsrTable) (i base : ℕ) (m : Memory) (s : State) (name : String) (a : ℕ)
      → get_elem? t i ≡ some (name, a)
      → IsLast t i a
      → Legal a (load64 m (csr_slot base a))
      → read (csr_loads F t base m s) a ≡ load64 m (csr_slot base a)
  unfolding csr_loads
  csr_loads_lem [] i base m s name a at_i last legal = ground arith
  csr_loads_lem ((n, c) ∷ t) zero base m s name a at_i last legal =
      let same : c ≡ a = ground arith in
      rw same (
        csr_loads_head t base m s a (load64 m (csr_slot base a))
          (λ j k b e. last (suc j) k b (omega arith) e) legal)
  csr_loads_lem ((n, c) ∷ t) (suc i) base m s name a at_i last legal =
      csr_loads_lem t i base m (write s c (load64 m (csr_slot base c))) name a at_i
        (λ j k b lt e. last (suc j) k b (omega arith) e) legal

module _ {F : CsrFile} (s : Machine F) where
  -- After `restore_csr_vector`, which reports success, every CSR of the list `CSRS` that no later
  -- entry shares and whose saved value is legal holds the value of its double word in the image.
  pub restore_csr_vector_lem :
      (a0 i : ℕ) (name : String) (a : ℕ)
      → get_elem? csrs i ≡ some (name, a)
      → IsLast F csrs i a
      → F.Legal a (load64 s.mem (csr_slot a0 a))
      → (F.read (restore_csr_vector a0 s).0.csr a ≡ load64 s.mem (csr_slot a0 a))
        × ((restore_csr_vector a0 s).1 ≡ 1)
  unfolding restore_csr_vector
  restore_csr_vector_lem a0 i name a at_i last legal =
      (csr_loads_lem F csrs i a0 s.mem _ name a at_i last legal, refl)

  -- So too for the hypervisor's CSRs, of the list `HCSRS`, after `rvh_csr_restore`.
  pub rvh_csr_restore_lem :
      (a0 i : ℕ) (name : String) (a : ℕ)
      → get_elem? hcsrs i ≡ some (name, a)
      → IsLast F hcsrs i a
      → F.Legal a (load64 s.mem (csr_slot a0 a))
      → (F.read (rvh_csr_restore a0 s).0.csr a ≡ load64 s.mem (csr_slot a0 a))
        × ((rvh_csr_restore a0 s).1 ≡ 1)
  unfolding rvh_csr_restore
  rvh_csr_restore_lem a0 i name a at_i last legal =
      (csr_loads_lem F hcsrs i a0 s.mem s.csr name a at_i last legal, refl)
