-- ===== src/Hart/Sample.antt =====
-- A register file in which the registers are independent of each other and keep every value, and a
-- hart over it with nothing in its registers.
use lib_checkpoint.Common.{ℕ, ◌≡◌, ◌≢◌, arith, [], ◌==◌, if◌then◌else◌}
use lib_checkpoint.Memory.{Memory}
use lib_checkpoint.Hart.{CsrFile, Machine}

abbrev put : (ℕ → ℕ) → ℕ → ℕ → ℕ → ℕ
put s a v b = if b == a then v else s b

pub put_there : (s : ℕ → ℕ) (a v : ℕ) → put s a v a ≡ v
put_there s a v = ground arith

pub put_apart : (s : ℕ → ℕ) (a v b : ℕ) → a ≢ b → put s a v b ≡ s b
put_apart s a v b apart = ground arith

abbrev pub plain_csrs : CsrFile
plain_csrs = record {
  State = ℕ → ℕ;
  read = λ s a. s a;
  write = put;
  vsetvl = λ s vl vtype. put (put s 0xc20 vl) 0xc21 vtype;
  Legal = λ a v. Unit;
  Separate = λ a b. a ≢ b;
  read-write = λ s a v _. put_there s a v;
  read-write_apart = put_apart;
}

abbrev pub blank : Memory → Machine plain_csrs
blank m = record { csr = λ _. 0; gpr = λ _. 0; fpr = λ _. 0; vreg = λ _. []; mem = m; log = [] }
