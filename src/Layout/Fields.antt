-- ===== src/Layout/Fields.antt =====
-- include/checkpoint.pb.h and src/checkpoint.proto: the fields of the two messages with their tags,
-- in the order of the structs, and the sizes that the generated header gives.
use lib_checkpoint.Common.{ℕ, ◌+◌, ◌*◌, ◌^◌, String, List, [], ◌∷◌, ltb, ◌==◌, if◌then◌else◌}
use lib_checkpoint.Layout.{CheckpointHeader, Memlayout}

-- `X(a, STATIC, SINGULAR, UINT64, name, tag)`, with the value of the struct's member
pub record Field : Type 0 where
  pub name : String
  pub tag : ℕ
  pub value : ℕ

abbrev field : String → ℕ → ℕ → Field
field name tag value = record { name = name; tag = tag; value = value }

abbrev pub checkpoint_header_fields : CheckpointHeader → List Field
checkpoint_header_fields m =
    field "magic_number" 1 m.magic_number
    ∷ field "cpt_offset" 2 m.cpt_offset
    ∷ field "cpu_num" 3 m.cpu_num
    ∷ field "single_core_size" 5 m.single_core_size
    ∷ field "version" 6 m.version
    ∷ []

abbrev pub memlayout_fields : Memlayout → List Field
memlayout_fields m =
    field "magic_number_cpt_addr" 11 m.magic_number_cpt_addr
    ∷ field "pc_cpt_addr" 12 m.pc_cpt_addr
    ∷ field "mode_cpt_addr" 13 m.mode_cpt_addr
    ∷ field "mtime_cpt_addr" 14 m.mtime_cpt_addr
    ∷ field "mtime_cmp_cpt_addr" 15 m.mtime_cmp_cpt_addr
    ∷ field "misc_done_cpt_addr" 16 m.misc_done_cpt_addr
    ∷ field "misc_reserve" 17 m.misc_reserve
    ∷ field "int_reg_cpt_addr" 18 m.int_reg_cpt_addr
    ∷ field "int_reg_done" 19 m.int_reg_done
    ∷ field "float_reg_cpt_addr" 20 m.float_reg_cpt_addr
    ∷ field "float_reg_done" 21 m.float_reg_done
    ∷ field "csr_reg_cpt_addr" 22 m.csr_reg_cpt_addr
    ∷ field "csr_reg_done" 23 m.csr_reg_done
    ∷ field "csr_reserve" 24 m.csr_reserve
    ∷ field "vector_reg_cpt_addr" 25 m.vector_reg_cpt_addr
    ∷ field "vector_reg_done" 26 m.vector_reg_done
    ∷ []

abbrev pub checkpoint_header_size : ℕ
checkpoint_header_size = 55

abbrev pub memlayout_size : ℕ
memlayout_size = 187

-- `PROTOBUF_BUFFER_SIZE` of src/gcpt.c
abbrev pub protobuf_buffer_size : ℕ
protobuf_buffer_size = 4096

-- The wire format of proto3, as its documents describe it: a number takes a byte for each seven
-- bits, a field is its key (the tag, shifted by three) and its number, and a zero is left out.
abbrev varint_size : ℕ → ℕ
varint_size v =
    if ltb v (2 ^ 7)
    then 1
    else if ltb v (2 ^ 14)
    then 2
    else if ltb v (2 ^ 21)
    then 3
    else if ltb v (2 ^ 28)
    then 4
    else if ltb v (2 ^ 35)
    then 5
    else if ltb v (2 ^ 42)
    then 6
    else if ltb v (2 ^ 49)
    then 7
    else if ltb v (2 ^ 56)
    then 8
    else if ltb v (2 ^ 63)
    then 9
    else 10

abbrev pub wire_size : List Field → ℕ
wire_size [] = 0
wire_size (f ∷ fs) =
    (if f.value == 0 then 0 else varint_size (f.tag * 8) + varint_size f.value) + wire_size fs

-- The largest size a message can have: each number takes ten bytes.
abbrev max_wire_size : List Field → ℕ
max_wire_size [] = 0
max_wire_size (f ∷ fs) = varint_size (f.tag * 8) + 10 + max_wire_size fs
