-- ===== src/Encoding/Causes.antt =====
-- include/encoding.h: the causes of traps, `CAUSE_` with their numbers and the texts that
-- `DECLARE_CAUSE` gives them.
use lib_checkpoint.Common.{
  ℕ, zero, suc, arith, ◌<◌, ◌≡◌, String, true, refl, List, [], ◌∷◌, some, get_elem?,
}
use lib_checkpoint.Encoding.Csrs.{CsrTable}
use lib_checkpoint.Encoding.Declared.Numbered.{numbered, numbered_sound}

abbrev pub causes : CsrTable
causes =
    ("misaligned_fetch", 0x0)
    ∷ ("fetch_access", 0x1)
    ∷ ("illegal_instruction", 0x2)
    ∷ ("breakpoint", 0x3)
    ∷ ("misaligned_load", 0x4)
    ∷ ("load_access", 0x5)
    ∷ ("misaligned_store", 0x6)
    ∷ ("store_access", 0x7)
    ∷ ("user_ecall", 0x8)
    ∷ ("supervisor_ecall", 0x9)
    ∷ ("hypervisor_ecall", 0xa)
    ∷ ("machine_ecall", 0xb)
    ∷ ("fetch_page_fault", 0xc)
    ∷ ("load_page_fault", 0xd)
    ∷ ("store_page_fault", 0xf)
    ∷ []

-- The text of a cause and its name.
abbrev pub declared_causes : List (String × String)
declared_causes =
    ("misaligned fetch", "misaligned_fetch")
    ∷ ("fetch access", "fetch_access")
    ∷ ("illegal instruction", "illegal_instruction")
    ∷ ("breakpoint", "breakpoint")
    ∷ ("misaligned load", "misaligned_load")
    ∷ ("load access", "load_access")
    ∷ ("misaligned store", "misaligned_store")
    ∷ ("store access", "store_access")
    ∷ ("user_ecall", "user_ecall")
    ∷ ("supervisor_ecall", "supervisor_ecall")
    ∷ ("hypervisor_ecall", "hypervisor_ecall")
    ∷ ("machine_ecall", "machine_ecall")
    ∷ ("fetch page fault", "fetch_page_fault")
    ∷ ("load page fault", "load_page_fault")
    ∷ ("store page fault", "store_page_fault")
    ∷ []

abbrev cause_names : List (String × String) → List String
cause_names [] = []
cause_names ((text, name) ∷ t) = name ∷ cause_names t

cause_names_at :
    (t : List (String × String)) (i : ℕ) (text name : String)
    → get_elem? t i ≡ some (text, name)
    → get_elem? (cause_names t) i ≡ some name
cause_names_at [] i text name h = ground arith
cause_names_at ((u, n) ∷ t) zero text name h = ground arith
cause_names_at ((u, n) ∷ t) (suc i) text name h = cause_names_at t i text name h

numbered-declared_causes : numbered 16 (cause_names declared_causes) causes ≡ true
unfolding numbered
numbered-declared_causes = refl

-- Every cause that is declared with a text has a number of four bits, at the same place of the list
-- of the numbers.
pub declared_causes_numbered :
    (i : ℕ) (text name : String)
    → get_elem? declared_causes i ≡ some (text, name)
    → (a : ℕ) × (get_elem? causes i ≡ some (name, a)) × (a < 16)
declared_causes_numbered i text name h =
    numbered_sound 16 (cause_names declared_causes) causes i name numbered-declared_causes
      (cause_names_at declared_causes i text name h)
