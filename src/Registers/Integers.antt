-- ===== src/Registers/Integers.antt =====
-- The integer registers after the two ways out of the restorer.
use lib_checkpoint.Common.{
  update, ℕ, zero, suc, ◌+◌, ◌*◌, ◌≤◌, ◌<◌, ◌≡◌, ◌≢◌, ◌∙◌, ◌&&◌, ◌||◌, refl, arith, ◌^◌, sym,
  ℕ_discrete, Bool, true, false, List, [], ◌∷◌, ◌==◌, ==-of-ne, if◌then◌else◌,
}
use lib_checkpoint.Memory.{Memory, load64}
use lib_checkpoint.Jal.{patch_address}
use lib_checkpoint.Jal.Slots.{patch_address_lem}
use lib_checkpoint.Hart.{CsrFile, Machine}
use lib_checkpoint.Registers.{
  int_loads, mret_registers, jump_registers, slot_registers, load_sp, slot_address,
  restore_int_vector_mret, restore_int_vector_jump,
}

abbrev elem : ℕ → List ℕ → Bool
elem i [] = false
elem i (j ∷ js) = i == j || elem i js

int_loads_lem :
    (is : List ℕ) (m : Memory) (gpr : ℕ → ℕ) (i : ℕ)
    → elem 2 is ≡ false
    → int_loads is m gpr i ≡ (if elem i is then load64 m (gpr 2 + i * 8) else gpr i)
unfolding int_loads
int_loads_lem [] m gpr i base = refl
int_loads_lem (k ∷ is) m gpr i base =
    ground (arith, int_loads_lem is m (update gpr k (load64 m (gpr 2 + k * 8))) i)

-- Registers 1 to 31.
abbrev pub IsInt : ℕ → Type 0
IsInt i = (1 ≤ i) × (i ≤ 31)

each_below : (ℕ → Bool) → ℕ → Bool
each_below test zero = true
each_below test (suc n) = each_below test n && test n

each_below_sound : (test : ℕ → Bool) (n i : ℕ) → i < n → each_below test n ≡ true → test i ≡ true
unfolding each_below
each_below_sound test zero i lt ok = absurd (omega arith)
each_below_sound test (suc n) i lt ok = ground (arith, each_below_sound test n i)

mret_table : each_below (λ i. i == 0 || i == 2 || elem i mret_registers) 32 ≡ true
unfolding each_below
mret_table = refl

jump_table :
    each_below (λ i. i == 0 || i == 2 || (elem i slot_registers || elem i jump_registers)) 32 ≡ true
unfolding each_below
jump_table = refl

or-skip : (a b c : Bool) → a ≡ false → b ≡ false → (a || b || c) ≡ true → c ≡ true
or-skip a b c ha hb h = ground arith

mret-elem : (i : ℕ) → IsInt i → i ≢ 2 → elem i mret_registers ≡ true
mret-elem i range ne =
    or-skip (i == 0) (i == 2) (elem i mret_registers) (==-of-ne i 0 (omega arith)) (==-of-ne i 2 ne)
      (each_below_sound (λ i. i == 0 || i == 2 || elem i mret_registers) 32 i (omega arith)
        mret_table)

jump-elem : (i : ℕ) → IsInt i → i ≢ 2 → (elem i slot_registers || elem i jump_registers) ≡ true
jump-elem i range ne =
    or-skip (i == 0) (i == 2) (elem i slot_registers || elem i jump_registers)
      (==-of-ne i 0 (omega arith)) (==-of-ne i 2 ne)
      (each_below_sound (λ i. i == 0 || i == 2 || (elem i slot_registers || elem i jump_registers))
        32 i (omega arith) jump_table)

-- All the loads but that of `sp`, from the image at `a0`.
mret_loads_lem :
    (m : Memory) (gpr : ℕ → ℕ) (a0 i : ℕ)
    → IsInt i
    → i ≢ 2
    → int_loads mret_registers m (update gpr 2 a0) i ≡ load64 m (a0 + i * 8)
mret_loads_lem m gpr a0 i range ne =
    rw (int_loads_lem mret_registers m (update gpr 2 a0) i refl, mret-elem i range ne)

mret_loads_sp :
    (m : Memory) (gpr : ℕ → ℕ) (a0 : ℕ) → int_loads mret_registers m (update gpr 2 a0) 2 ≡ a0
mret_loads_sp m gpr a0 = int_loads_lem mret_registers m (update gpr 2 a0) 2 refl

jump_loads_sp :
    (m : Memory) (gpr : ℕ → ℕ) (a0 : ℕ) → int_loads jump_registers m (update gpr 2 a0) 2 ≡ a0
jump_loads_sp m gpr a0 = int_loads_lem jump_registers m (update gpr 2 a0) 2 refl

load_sp_lem :
    (m : Memory) (gpr : ℕ → ℕ) (i : ℕ)
    → load_sp m gpr i ≡ (if i == 2 then load64 m (gpr 2 + 2 * 8) else gpr i)
unfolding load_sp
load_sp_lem m gpr i = refl

slot_loads_lem :
    (m : Memory) (gpr : ℕ → ℕ) (a0 x5 x6 i : ℕ)
    → IsInt i
    → i ≢ 2
    → int_loads slot_registers m
        (update (update (int_loads jump_registers m (update gpr 2 a0)) 6 x6) 5 x5)
        i
      ≡ load64 m (a0 + i * 8)
slot_loads_lem m gpr a0 x5 x6 i range ne = ground (
  arith,
  int_loads_lem slot_registers m
      (update (update (int_loads jump_registers m (update gpr 2 a0)) 6 x6) 5 x5) i refl,
  int_loads_lem jump_registers m (update gpr 2 a0) i refl,
  jump_loads_sp m gpr a0,
  jump-elem i range ne,
)

mret_all :
    (m : Memory) (gpr : ℕ → ℕ) (a0 i : ℕ)
    → IsInt i
    → load_sp m (int_loads mret_registers m (update gpr 2 a0)) i ≡ load64 m (a0 + i * 8)
mret_all m gpr a0 i range = elim (ℕ_discrete i 2) [
  | yes sp ↦ rw (load_sp_lem, sp, mret_loads_sp m gpr a0)
  | no ne ↦ rw (load_sp_lem, ==-of-ne i 2 ne) (mret_loads_lem m gpr a0 i range ne)
]

jump_all :
    (m : Memory) (gpr : ℕ → ℕ) (a0 x5 x6 i : ℕ)
    → IsInt i
    → load_sp m
        (int_loads slot_registers m
          (update (update (int_loads jump_registers m (update gpr 2 a0)) 6 x6) 5 x5))
        i
      ≡ load64 m (a0 + i * 8)
jump_all m gpr a0 x5 x6 i range = elim (ℕ_discrete i 2) [
  | yes sp ↦ rw (load_sp_lem, sp, int_loads_lem, jump_loads_sp m gpr a0)
  | no ne ↦ rw (load_sp_lem, ==-of-ne i 2 ne) (slot_loads_lem m gpr a0 x5 x6 i range ne)
]

module _ {F : CsrFile} (s : Machine F) where
  -- On the way out by `mret` every integer register from 1 to 31 has the double word of its number
  -- in the image, `sp` among them, though it is the base of all the loads.
  pub restore_int_vector_mret_lem :
      (a0 i : ℕ) → IsInt i → (restore_int_vector_mret a0 s).gpr i ≡ load64 s.mem (a0 + i * 8)
  unfolding restore_int_vector_mret
  restore_int_vector_mret_lem a0 i range = mret_all s.mem s.gpr a0 i range

  -- Where the slot ends below `2 ^ 64`, the way out by a jump leaves the same registers as that
  -- by `mret`, though it finds its slot with two of them, and the word run next is the one that
  -- the C code patches for this core.
  pub restore_int_vector_jump_lem :
      (core0 mhartid a0 i : ℕ)
      → IsInt i
      → core0 + mhartid * 16 + 12 < 2 ^ 64
      → ((restore_int_vector_jump core0 mhartid a0 s).0.gpr i
          ≡ (restore_int_vector_mret a0 s).gpr i)
        × ((restore_int_vector_jump core0 mhartid a0 s).1 ≡ patch_address core0 mhartid)
  unfolding restore_int_vector_mret restore_int_vector_jump slot_address
  restore_int_vector_jump_lem core0 mhartid a0 i range fits = (
    jump_all s.mem s.gpr a0 (slot_address core0 mhartid) core0 i range
        ∙ sym (mret_all s.mem s.gpr a0 i range),
    omega (arith, patch_address_lem core0 mhartid fits),
  )
