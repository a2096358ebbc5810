-- ===== src/Restore/Range/Steps.antt =====
-- Each step of the restorer keeps the machine in range.
use lib_checkpoint.Common.{ℕ, ◌+◌, ◌==◌, String, List, Bool-cases, inl, inr}
use lib_checkpoint.Memory.{load64}
use lib_checkpoint.Common.Int.{signed32}
use lib_checkpoint.Console.{Event}
use lib_checkpoint.CsrLists.{clint_mmio, clint_mtime}
use lib_checkpoint.Layout.{Memlayout}
use lib_checkpoint.Jal.{patch_address, jal_word, jal_distance, is_valid_imm}
use lib_checkpoint.Hart.{CsrFile, Machine}
use lib_checkpoint.Hart.Range.{IsInRange, store32-AreBytes, store64-AreBytes}
use lib_checkpoint.Registers.{
  restore_csr_vector, rvh_csr_restore, rvv_restore, restore_float_vector, restore_mtime,
  restore_mtime_cmp,
}
use lib_checkpoint.Registers.Range.{float_loads-AreWords, vector_loads-AreVectors}
use lib_checkpoint.Restore.{when, restore_check, check_range, patch_slot, restore_clock}

module _ {F : CsrFile} where
  pub when-IsInRange :
      (flag : ℕ) (f : Machine F → Machine F) (s : Machine F)
      → ((t : Machine F) → IsInRange t → IsInRange (f t))
      → IsInRange s
      → IsInRange (when flag f s)
  when-IsInRange flag f s keeps ok = elim (Bool-cases (flag == 0)) [
    | inl off ↦ rw off ok
    | inr on ↦ rw on (keeps s ok)
  ]

  -- What is printed is no matter.
  pub logged-IsInRange :
      (s : Machine F) (log : List Event) → IsInRange s → IsInRange (record s { log = log })
  logged-IsInRange s log ok = record {
    bytes = ok.bytes;
    gprs = ok.gprs;
    fprs = ok.fprs;
    vectors = ok.vectors;
  }

  pub restore_check-IsInRange :
      (name : String) (r : Machine F × ℕ) → IsInRange r.0 → IsInRange (restore_check name r)
  unfolding restore_check
  restore_check-IsInRange name r ok = elim (Bool-cases (r.1 == 1)) [
    | inl good ↦ rw good (logged-IsInRange r.0 _ ok)
    | inr bad ↦ rw bad (logged-IsInRange r.0 _ ok)
  ]

  pub check_range-IsInRange :
      (pc target_pc : ℕ) (s : Machine F) → IsInRange s → IsInRange (check_range pc target_pc s)
  unfolding check_range
  check_range-IsInRange pc target_pc s ok =
      elim (Bool-cases (is_valid_imm (signed32 (jal_distance pc target_pc)))) [
        | inl near ↦ rw near ok
        | inr far ↦ rw far (logged-IsInRange s _ ok)
      ]

  pub patch_slot-IsInRange :
      (core0 cpu_id : ℕ) (l : Memlayout) (s : Machine F)
      → IsInRange s
      → IsInRange (patch_slot core0 cpu_id l s)
  unfolding patch_slot
  patch_slot-IsInRange core0 cpu_id l s ok =
      let pc = patch_address core0 cpu_id in
      let target_pc = load64 s.mem l.pc_cpt_addr in
      let checked = check_range-IsInRange pc target_pc s ok in
      record {
        bytes =
            store32-AreBytes (check_range pc target_pc s).mem pc (jal_word pc target_pc)
              checked.bytes;
        gprs = checked.gprs;
        fprs = checked.fprs;
        vectors = checked.vectors;
      }

  pub rvh-IsInRange : (a0 : ℕ) (s : Machine F) → IsInRange s → IsInRange (rvh_csr_restore a0 s).0
  unfolding rvh_csr_restore
  rvh-IsInRange a0 s ok = record {
    bytes = ok.bytes;
    gprs = ok.gprs;
    fprs = ok.fprs;
    vectors = ok.vectors;
  }

  pub csrs-IsInRange :
      (a0 : ℕ) (s : Machine F) → IsInRange s → IsInRange (restore_csr_vector a0 s).0
  unfolding restore_csr_vector
  csrs-IsInRange a0 s ok = record {
    bytes = ok.bytes;
    gprs = ok.gprs;
    fprs = ok.fprs;
    vectors = ok.vectors;
  }

  pub rvv-IsInRange :
      (vlenb a0 a1 : ℕ) (s : Machine F) → IsInRange s → IsInRange (rvv_restore vlenb a0 a1 s).0
  unfolding rvv_restore
  rvv-IsInRange vlenb a0 a1 s ok = record {
    bytes = ok.bytes;
    gprs = ok.gprs;
    fprs = ok.fprs;
    vectors = vector_loads-AreVectors s.mem ok.bytes vlenb 32 0 a1 s.vreg ok.vectors;
  }

  pub float-IsInRange :
      (a0 : ℕ) (s : Machine F) → IsInRange s → IsInRange (restore_float_vector a0 s).0
  unfolding restore_float_vector
  float-IsInRange a0 s ok = record {
    bytes = ok.bytes;
    gprs = ok.gprs;
    fprs = float_loads-AreWords s.mem ok.bytes 32 0 a0 s.fpr ok.fprs;
    vectors = ok.vectors;
  }

  pub timer-IsInRange :
      (a0 a1 : ℕ) (s : Machine F) → IsInRange s → IsInRange (restore_mtime_cmp a0 a1 s).0
  unfolding restore_mtime_cmp
  timer-IsInRange a0 a1 s ok = record {
    bytes = store64-AreBytes s.mem a0 (load64 s.mem a1) ok.bytes;
    gprs = ok.gprs;
    fprs = ok.fprs;
    vectors = ok.vectors;
  }

  pub clock-IsInRange :
      (l : Memlayout) (s : Machine F) → IsInRange s → IsInRange (restore_clock l s)
  unfolding restore_clock restore_mtime
  clock-IsInRange l s ok =
      restore_check-IsInRange "MTIME" (restore_mtime l.mtime_cpt_addr s) (record {
        bytes =
            store64-AreBytes s.mem (clint_mmio + clint_mtime) (load64 s.mem l.mtime_cpt_addr)
              ok.bytes;
        gprs = ok.gprs;
        fprs = ok.fprs;
        vectors = ok.vectors;
      })
