-- ===== src/Printing.antt =====
-- src/utils.c, `mt_printf`: harts print under the lock `mt_printf_lock`. A call is the list of the
-- bytes that `vprintf` (src/printf.c) hands to `_putchar` for it. A step is one access to shared
-- memory or one byte on the serial port; the harts are interleaved freely.
pub mod Invariant
pub mod Atomic
pub mod Refines
pub mod Progress
pub mod Tests
use lib_checkpoint.Common.{update, ℕ, List, [], ◌∷◌, ◌++◌, if◌then◌else◌}
use lib_checkpoint.Spinlock.{
  is_true, spinlock_init, spinlock_busy, spinlock_trylock, spinlock_unlock,
}

abbrev pub Message : Type 0
Message = List ℕ

-- `mt_printf_lock`, and the bytes that the serial port has got
pub record Port : Type 0 where
  pub lock : ℕ
  pub output : List ℕ

-- Where a hart stands, with the calls that it has still to make.
pub data Pc : Type 0 where
  between : List Message → Pc  -- not in `mt_printf`
  spinning : Message → List Message → Pc  -- the loop of `spinlock_lock`
  trying : Message → List Message → Pc  -- `spinlock_trylock`
  printing : Message → List Message → Pc  -- in `vprintf`, with the bytes that are left

-- `_putchar`
abbrev pub putchar : ℕ → List ℕ → List ℕ
putchar character output = output ++ character ∷ []

pub access : Port → Pc → Port × Pc
access s (between []) = (s, between [])
access s (between (m ∷ ms)) = (s, spinning m ms)
access s (spinning m ms) = (s, if spinlock_busy s.lock then spinning m ms else trying m ms)
access s (trying m ms) =
    let (lock, res) = spinlock_trylock s.lock in
    (record s { lock = lock }, if is_true res then spinning m ms else printing m ms)
access s (printing (c ∷ cs) ms) = (record s { output = putchar c s.output }, printing cs ms)
access s (printing [] ms) = (record s { lock = spinlock_unlock s.lock }, between ms)

pub record System : Type 0 where
  pub port : Port
  pub pc : ℕ → Pc

-- Hart `i` goes on.
pub step : ℕ → System → System
step i s = let (port, p) = access s.port (s.pc i) in record { port = port; pc = update s.pc i p }

pub run : List ℕ → System → System
run [] s = s
run (i ∷ is) s = run is (step i s)

-- Each hart is about to make its calls, and nothing is printed.
abbrev pub initial : (ℕ → List Message) → System
initial calls = record {
  port = record { lock = spinlock_init; output = [] };
  pc = λ i. between (calls i);
}
