-- ===== src/Registers/Tests.antt =====
-- The register routines on an image in which every byte is its own address, cut to a byte.
use lib_checkpoint.Common.{
  ℕ, zero, suc, ◌%◌, ◌^◌, ◌≡◌, refl, arith, String, Bool, true, ◌&&◌, not, [], ◌∷◌, some, get_elem?,
  ◌==◌,
}
use lib_checkpoint.Memory.{Memory, load32, load64}
use lib_checkpoint.Encoding.{csr_mstatus}
use lib_checkpoint.Encoding.Csrs.{CsrTable}
use lib_checkpoint.CsrLists.{csrs, hcsrs}
use lib_checkpoint.Jal.{patch_address}
use lib_checkpoint.Hart.{Machine}
use lib_checkpoint.Hart.Sample.{plain_csrs, blank}
use lib_checkpoint.Registers.{
  int_loads, load_sp, slot_address, restore_int_vector_mret, restore_int_vector_jump,
}
use lib_checkpoint.Registers.Csrs.{IsLast}
use lib_checkpoint.Registers.Integers.{restore_int_vector_jump_lem}

abbrev counted_memory : Memory
counted_memory a = a % 2 ^ 8

abbrev hart : Machine plain_csrs
hart = blank counted_memory

-- No entry behind place `i` has the number `a`.
absent : ℕ → CsrTable → Bool
absent a [] = true
absent a ((n, b) ∷ t) = not (b == a) && absent a t

pub absent_behind : ℕ → ℕ → CsrTable → Bool
absent_behind i a [] = true
absent_behind zero a (e ∷ t) = absent a t
absent_behind (suc i) a (e ∷ t) = absent_behind i a t

absent_sound :
    (a : ℕ) (t : CsrTable) (j : ℕ) (n : String) (b : ℕ)
    → absent a t ≡ true
    → get_elem? t j ≡ some (n, b)
    → plain_csrs.Separate b a
unfolding absent
absent_sound a [] j n b ok h = ground arith
absent_sound a ((k, c) ∷ t) zero n b ok h = ground arith
absent_sound a ((k, c) ∷ t) (suc j) n b ok h = ground (arith, absent_sound a t j n b)

-- The check by computation finds the last entry of a register that shares nothing.
pub absent_behind-IsLast :
    (t : CsrTable) (i a : ℕ) → absent_behind i a t ≡ true → IsLast plain_csrs t i a
unfolding absent_behind
absent_behind-IsLast [] i a ok j n b lt h = ground arith
absent_behind-IsLast (e ∷ t) i a ok zero n b lt h = absurd (omega arith)
absent_behind-IsLast (e ∷ t) zero a ok (suc j) n b lt h = absent_sound a t j n b ok h
absent_behind-IsLast (e ∷ t) (suc i) a ok (suc j) n b lt h =
    absent_behind-IsLast t i a ok j n b (omega arith) h

pub mstatus-IsLast : IsLast plain_csrs csrs 6 csr_mstatus
unfolding absent_behind absent
mstatus-IsLast = absent_behind-IsLast csrs 6 csr_mstatus refl

vsatp-IsLast : IsLast plain_csrs hcsrs 25 0x280
unfolding absent_behind absent
vsatp-IsLast = absent_behind-IsLast hcsrs 25 0x280 refl

restore_int_vector_jump_example :
    ((restore_int_vector_jump 0x80000100 3 0x1000 hart).0.gpr 5
      ≡ (restore_int_vector_mret 0x1000 hart).gpr 5)
    × ((restore_int_vector_jump 0x80000100 3 0x1000 hart).1 ≡ patch_address 0x80000100 3)
restore_int_vector_jump_example =
    restore_int_vector_jump_lem hart 0x80000100 3 0x1000 5 (omega arith, omega arith) (omega arith)

-- The registers 1, 2, 5 and 31 of the image, in hexadecimal.
registers_test :
    ((restore_int_vector_jump 0x80000100 3 0x1000 hart).0.gpr 1 ≡ 0x0f0e0d0c0b0a0908)
    × ((restore_int_vector_jump 0x80000100 3 0x1000 hart).0.gpr 2 ≡ 0x1716151413121110)
    × ((restore_int_vector_jump 0x80000100 3 0x1000 hart).0.gpr 5 ≡ 0x2f2e2d2c2b2a2928)
    × ((restore_int_vector_jump 0x80000100 3 0x1000 hart).1 ≡ 0x8000013c)
unfolding restore_int_vector_jump int_loads load_sp slot_address load64 load32
registers_test = (refl, refl, refl, refl)
