-- ===== src/Jal.antt =====
-- src/decode_restore.c: the `jal` instruction that `single_core_rvv_rvh_rvgc_restore` writes over
-- the placeholder of a core's slot when a checkpoint is resumed in M mode. The fields of the union
-- `JalInstr` are truncated to their widths, and shifts and masks are `/` and `%` by powers of two.
pub mod Reach
pub mod Slots
pub mod Decode
pub mod Tests
use lib_checkpoint.Common.{ℕ, ◌+◌, ◌-◌, ◌*◌, ◌/◌, ◌%◌, ◌^◌, Bool, ◌&&◌, ltb, if◌then◌else◌, ◌==◌}
use lib_checkpoint.Common.Int.{ℤ, pos, negsuc, leℤ, ltℤ, signed32}

-- the placeholder of a slot, `.word 0x00000013`
abbrev pub nop : ℕ
nop = 0x00000013

pub record JalInstr : Type 0 where
  pub opcode : ℕ
  pub rd : ℕ
  pub imm_19_12 : ℕ
  pub imm_11 : ℕ
  pub imm_10_1 : ℕ
  pub imm_20 : ℕ

-- the member `inst` of the union: the bit fields from the lowest up, each in its width
pub inst : JalInstr → ℕ
inst j =
    j.opcode % 2 ^ 7
    + j.rd % 2 ^ 5 * 2 ^ 7
    + j.imm_19_12 % 2 ^ 8 * 2 ^ 12
    + j.imm_11 % 2 * 2 ^ 20
    + j.imm_10_1 % 2 ^ 10 * 2 ^ 21
    + j.imm_20 % 2 * 2 ^ 31

pub generate_jal : ℕ → ℕ → ℕ
unfolding inst
generate_jal imm rd = inst (record {
  opcode = 0b1101111;
  rd = rd;
  imm_20 = imm / 2 ^ 19 % 2;
  imm_19_12 = imm / 2 ^ 11 % 2 ^ 8;
  imm_11 = imm / 2 ^ 10 % 2;
  imm_10_1 = imm % 2 ^ 10;
})

pub is_valid_imm : ℤ → Bool
is_valid_imm imm = leℤ (negsuc (2 ^ 20 - 1)) imm && ltℤ imm (pos (2 ^ 20))

-- `pc += 3 * (cpu_id + 1) + cpu_id`, on a pointer to 4-byte words
unfoldable pub patch_address : ℕ → ℕ → ℕ
patch_address core0 cpu_id = (core0 + 4 * (3 * (cpu_id + 1) + cpu_id)) % 2 ^ 64

-- `(uint32_t)((uint64_t)target_pc - (uint64_t)pc)`
pub jal_distance : ℕ → ℕ → ℕ
jal_distance pc target_pc = (target_pc + 2 ^ 64 - pc) % 2 ^ 64 % 2 ^ 32

-- `generate_jal((offset >> 1) & 0xFFFFF, 0)`
pub jal_word : ℕ → ℕ → ℕ
unfolding generate_jal jal_distance
jal_word pc target_pc = generate_jal (jal_distance pc target_pc / 2 % 2 ^ 20) 0

-- What the instruction set says of a word: the fields of a J-type instruction, the offset as it is
-- added to the program counter, and where the jump goes. `none` of it is code of the program.
abbrev pub field : ℕ → ℕ → ℕ → ℕ
field word low width = word / 2 ^ low % 2 ^ width

abbrev pub is_jump : ℕ → Bool
is_jump word = (field word 0 7 == 0x6f) && (field word 7 5 == 0)

abbrev pub offset_bits : ℕ → ℕ
offset_bits word =
    field word 31 1 * 2 ^ 20
    + field word 12 8 * 2 ^ 12
    + field word 20 1 * 2 ^ 11
    + field word 21 10 * 2

abbrev pub jump_target : ℕ → ℕ → ℕ
jump_target pc word =
    (pc
      + (if ltb (offset_bits word) (2 ^ 20)
          then offset_bits word
          else offset_bits word + 2 ^ 64 - 2 ^ 21))
    % 2 ^ 64
