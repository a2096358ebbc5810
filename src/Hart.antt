-- ===== src/Hart.antt =====
-- The state of one hart, and what the restorer takes of the hardware: the control and status
-- registers, which code reads and writes by `csrr`, `csrw` and `csrs` (`read_csr` and `write_csr`
-- of include/encoding.h). Their storage is no code of the program: it is a parameter.
pub mod Sample
pub mod Range
use lib_checkpoint.Common.{ℕ, ◌≡◌, List, [], ◌∷◌, ◌++◌, bit_or}
use lib_checkpoint.Memory.{Memory}
use lib_checkpoint.Console.{Event}

-- `Legal a v`: CSR `a` implements the value `v`. `Separate a b`: they share no state, so a write of
-- `a` leaves `b` alone. The two laws are the privileged architecture's: a legal value written to a
-- WARL register reads back.
pub record CsrFile : Type 1 where
  pub State : Type 0
  pub read : State → ℕ → ℕ
  pub write : State → ℕ → ℕ → State
  pub vsetvl : State → ℕ → ℕ → State  -- of a length and a type
  pub Legal : ℕ → ℕ → Type 0
  pub Separate : ℕ → ℕ → Type 0
  pub read-write : (s : State) (a v : ℕ) → Legal a v → read (write s a v) a ≡ v
  pub read-write_apart : (s : State) (a v b : ℕ) → Separate a b → read (write s a v) b ≡ read s b

-- `gpr` and `fpr` are the integer and float registers by number; a vector register is the list of
-- its bytes, lowest first. Registers that C code may use between calls are not followed: `gpr` is
-- what the code of restore.S sets on its way out.
pub record Machine (F : CsrFile) : Type 0 where
  pub csr : F.State
  pub gpr : ℕ → ℕ
  pub fpr : ℕ → ℕ
  pub vreg : ℕ → List ℕ
  pub mem : Memory
  pub log : List Event

module _ (F : CsrFile) where
  -- `csrs a, mask`
  abbrev pub set_bits : F.State → ℕ → ℕ → F.State
  set_bits s a mask = F.write s a (bit_or (F.read s a) mask)

module _ {F : CsrFile} where
  -- One more event, after those before.
  abbrev pub emit : Event → Machine F → Machine F
  emit e s = record s { log = s.log ++ e ∷ [] }
