-- ===== src/Memory/Tests.antt =====
-- A segment of sixteen bytes, and one at the top of the address space.
use ca.Base.{
  ℕ, ◌+◌, ◌^◌, ◌-◌, ◌≤◌, ◌≡◌, ◌↔◌, ◌⊎◌, inl, refl, arith, ok, throw, true, false, replicate, [],
  ◌∷◌, illegal_access_of_size,
}
use ca.Base
use ca.Memory.{Memory, half_word, word, double_word, contains, can_access, read_data, write_data}
use ca.Memory.Bytes.{store}
use ca.Memory.Access.{
  IsValid, Within, can_access_iff, read_data_defined, read_data-write_data,
  read_data-write_data_disjoint,
}
use ca.Memory.Overrun.{read_data_undefined}

abbrev segment : Memory
segment = record {
  name = "data";
  may_write = true;
  base = 0x100;
  size = 16;
  align = 8;
  bytes = replicate 16 0;
}

segment-IsValid : IsValid segment
segment-IsValid = omega arith

-- The segment after 0x1234 has been stored as a half word at 0x108.
abbrev stored_segment : Memory
stored_segment = record segment {
  bytes = 0 ∷ 0 ∷ 0 ∷ 0 ∷ 0 ∷ 0 ∷ 0 ∷ 0 ∷ 0x34 ∷ 0x12 ∷ 0 ∷ 0 ∷ 0 ∷ 0 ∷ 0 ∷ 0 ∷ [];
}

segment_stored : write_data half_word 0x108 0x1234 segment ≡ ok stored_segment
unfolding write_data can_access store
segment_stored = refl

-- It ends four bytes below 2 ^ 64.
abbrev top_segment : Memory
top_segment = record {
  name = "data";
  may_write = false;
  base = 2 ^ 64 - 16;
  size = 12;
  align = 8;
  bytes = replicate 12 0;
}

can_access_iff_example :
    ((can_access 0x10c 4 false segment ≡ true) ↔ Within segment word 0x10c)
    × ((can_access 0x10c 4 true segment ≡ true)
        ↔ (Within segment word 0x10c × (segment.may_write ≡ true)))
unfolding contains
can_access_iff_example = can_access_iff segment word 0x10c segment-IsValid refl

read_data_defined_example :
    (Within segment word 0x10e × ((value : ℕ) × (read_data word 0x10e segment ≡ ok value)))
    ⊎ ((¬ Within segment word 0x10e)
        × (read_data word 0x10e segment ≡ throw (illegal_access_of_size 0x10e 4)))
unfolding contains
read_data_defined_example = read_data_defined segment word 0x10e segment-IsValid refl

read_data-write_data_example : read_data half_word 0x108 stored_segment ≡ ok 0x1234
read_data-write_data_example =
    read_data-write_data segment stored_segment half_word 0x108 0x1234 segment_stored

read_data-write_data_disjoint_example :
    read_data double_word 0x100 stored_segment ≡ read_data double_word 0x100 segment
read_data-write_data_disjoint_example =
    read_data-write_data_disjoint segment stored_segment half_word double_word 0x108 0x100 0x1234
      (omega arith) (omega arith) (omega arith) segment_stored

read_data_undefined_example : read_data double_word (2 ^ 64 - 6) top_segment ≡ Base.Result.undefined
unfolding contains
read_data_undefined_example =
    read_data_undefined top_segment double_word (2 ^ 64 - 6) refl (omega arith) (omega arith) refl
      (omega arith)
