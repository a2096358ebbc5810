-- ===== src/Trap/Window.antt =====
-- The trap vector and `mstatus` while the restorer's handler is on, and after it is off again.
use lib_checkpoint.Common.{ℕ, ◌+◌, ◌-◌, ◌*◌, ◌/◌, ◌%◌, ◌^◌, ◌≡◌, ◌∙◌, ap, arith, bit_and, bit_or}
use lib_checkpoint.Common.Bits.{bit_and_step, bit_or_step, bit_or-zero}
use lib_checkpoint.Encoding.{csr_mstatus, mstatus_mie}
use lib_checkpoint.Hart.{CsrFile, Machine}
use lib_checkpoint.Trap.{csr_mtvec, not_mie, enable_gcpt_trap, disable_gcpt_trap}

bit_or-one : (x : ℕ) → bit_or x 1 ≡ x / 2 * 2 + 1
bit_or-one x = omega (arith, bit_or_step x 1, bit_or-zero (x / 2))

bit_or-eight : (x : ℕ) → bit_or x 8 ≡ x / 16 * 16 + 8 + x % 8
bit_or-eight x = omega (
  arith,
  bit_or_step x 8,
  bit_or_step (x / 2) 4,
  bit_or_step (x / 2 / 2) 2,
  bit_or-one (x / 2 / 2 / 2),
)

-- `& ~8` reads the bits below bit 3 and those above it.
bit_and-not_mie : (x : ℕ) → bit_and x not_mie ≡ bit_and (x / 16) (2 ^ 60 - 1) * 16 + x % 8
bit_and-not_mie x = ground (
  arith,
  bit_and_step x not_mie,
  bit_and_step (x / 2) (not_mie / 2),
  bit_and_step (x / 2 / 2) (not_mie / 4),
  bit_and_step (x / 2 / 2 / 2) (not_mie / 8),
)

-- Clearing MIE undoes setting it.
mie_undone : (x : ℕ) → bit_and (bit_or x mstatus_mie) not_mie ≡ bit_and x not_mie
mie_undone x = ground (arith, bit_and-not_mie (bit_or x 8), bit_and-not_mie x, bit_or-eight x)

not_mie-bit : (x : ℕ) → bit_and x not_mie / 8 % 2 ≡ 0
not_mie-bit x = omega (arith, bit_and-not_mie x)

mie-bit : (x : ℕ) → bit_or x mstatus_mie / 8 % 2 ≡ 1
mie-bit x = omega (arith, bit_or-eight x)

disable_gcpt_trap-mstatus :
    {F : CsrFile} (t : Machine F) (v : ℕ)
    → F.Separate csr_mtvec csr_mstatus
    → F.read t.csr csr_mstatus ≡ v
    → F.Legal csr_mstatus (bit_and v not_mie)
    → F.read (disable_gcpt_trap t).csr csr_mstatus ≡ bit_and v not_mie
unfolding disable_gcpt_trap
disable_gcpt_trap-mstatus {F} t v apart here legal =
    F.read-write_apart _ _ _ _ apart
    ∙ F.read-write _ _ _ (rw here legal)
    ∙ ap (λ (x : ℕ). bit_and x not_mie) here

module _ {F : CsrFile} (s : Machine F) (gcpt_trap : ℕ) where
  abbrev mstatus_on : ℕ
  mstatus_on = bit_or (F.read s.csr csr_mstatus) mstatus_mie

  abbrev enabled : Machine F
  enabled = enable_gcpt_trap gcpt_trap s

  enabled-mstatus :
      F.Legal csr_mstatus mstatus_on
      → F.Separate csr_mtvec csr_mstatus
      → F.read enabled.csr csr_mstatus ≡ mstatus_on
  unfolding enable_gcpt_trap
  enabled-mstatus on apart = F.read-write_apart _ _ _ _ apart ∙ F.read-write _ _ _ on

  enabled-mtvec :
      F.Legal csr_mtvec (bit_and gcpt_trap 0xFFFFFFFFFFFFFFFC)
      → F.read enabled.csr csr_mtvec ≡ bit_and gcpt_trap 0xFFFFFFFFFFFFFFFC
  unfolding enable_gcpt_trap
  enabled-mtvec vector = F.read-write _ _ _ vector

  disabled-mtvec : F.Legal csr_mtvec 0 → F.read (disable_gcpt_trap enabled).csr csr_mtvec ≡ 0
  unfolding disable_gcpt_trap
  disabled-mtvec off = F.read-write _ _ _ off

  -- Where the values written are legal and `mtvec` shares nothing with `mstatus`: while the
  -- handler is on, the trap vector is its address in direct mode, with the two low bits clear,
  -- and MIE is set. Switching it off clears the vector and MIE; `mstatus` is then what it was
  -- before, but for MIE, whatever that was.
  pub trap_window :
      F.Legal csr_mtvec (bit_and gcpt_trap 0xFFFFFFFFFFFFFFFC)
      → F.Legal csr_mtvec 0
      → F.Legal csr_mstatus mstatus_on
      → F.Legal csr_mstatus (bit_and (F.read s.csr csr_mstatus) not_mie)
      → F.Separate csr_mtvec csr_mstatus
      → (F.read enabled.csr csr_mtvec ≡ bit_and gcpt_trap 0xFFFFFFFFFFFFFFFC)
        × (F.read enabled.csr csr_mstatus / 8 % 2 ≡ 1)
        × (F.read (disable_gcpt_trap enabled).csr csr_mtvec ≡ 0)
        × (F.read (disable_gcpt_trap enabled).csr csr_mstatus
            ≡ bit_and (F.read s.csr csr_mstatus) not_mie)
        × (F.read (disable_gcpt_trap enabled).csr csr_mstatus / 8 % 2 ≡ 0)
  trap_window vector off on cleared apart =
      let v = F.read s.csr csr_mstatus in
      let set : F.read enabled.csr csr_mstatus ≡ mstatus_on = enabled-mstatus on apart in
      let reset : F.read (disable_gcpt_trap enabled).csr csr_mstatus ≡ bit_and v not_mie =
        disable_gcpt_trap-mstatus enabled mstatus_on apart set (rw (mie_undone v) cleared)
        ∙ mie_undone v in
      (
        enabled-mtvec vector,
        rw set (mie-bit v),
        disabled-mtvec off,
        reset,
        rw reset (not_mie-bit v),
      )
