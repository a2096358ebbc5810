-- ===== src/Cluster/Tests.antt =====
-- Two harts restore side by side: core 0 was in machine mode and leaves by its slot, core 1 was not.
use lib_checkpoint.Common.{◌==◌, if◌then◌else◌, ℕ, List, [], ◌∷◌, ◌++◌}
use lib_checkpoint.Memory.{Memory, put, store64}
use lib_checkpoint.Layout.{default_multicore_layout}
use lib_checkpoint.Hart.{Machine}
use lib_checkpoint.Hart.Sample.{plain_csrs, blank}
use lib_checkpoint.Barrier
use lib_checkpoint.Cluster.{Setting}
use lib_checkpoint.Boot.{Decoder}
use lib_checkpoint.Boot.Tests.{decoder}
use lib_checkpoint.Cluster.Resume.{in_a_row}

abbrev row : Setting
row = in_a_row 0x80F00000 16 0x80000000 0x100000 default_multicore_layout

-- Two cores in the count of each, the modes, the program counter of core 0, and a register of core 1.
abbrev images : Memory
images =
    put (put (put (put (put (λ _. 0) 0x80009240 2) 0x80109240 2) 0x80000010 3) 0x80100010 1)
      0x80101010 0x55

abbrev before : Memory
before = store64 images 0x80000008 0x80F00100

abbrev harts : ℕ → Machine plain_csrs
harts i = blank (λ _. 0)

-- Hart 0 restores and waits; hart 1 lets it go on.
abbrev to_gate : List ℕ
to_gate = 0 ∷ 1 ∷ 0 ∷ 0 ∷ 0 ∷ 1 ∷ 0 ∷ 0 ∷ 0 ∷ 1 ∷ 1 ∷ 1 ∷ 1 ∷ 1 ∷ 0 ∷ 0 ∷ 0 ∷ 0 ∷ 0 ∷ 0 ∷ 1 ∷ 1 ∷ []

abbrev whole : List ℕ
whole = to_gate ++ 1 ∷ 1 ∷ 1 ∷ 1 ∷ 1 ∷ 1 ∷ 0 ∷ 0 ∷ []

-- A decoder of one byte, which heeds the size of the buffer.
abbrev byte_decoder : Decoder
byte_decoder = record decoder { istream_from_buffer = λ a size m. if size == 0 then 0 else m a }

-- with a header for the decoder
abbrev headed : Memory
headed = put before 0x80E00000 1

-- the same images, but of three cores
abbrev of_three : Memory
of_three = put (put before 0x80009240 3) 0x80109240 3
