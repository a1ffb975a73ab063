-- ===== src/Decoder.antt =====
-- src/inst-decoder.h and src/inst-decoder.cc: the fields of a 32-bit instruction word.
-- An `int64_t` is the integer that it stands for.
mod Tests
pub mod Encoding
pub mod Fields
pub mod RoundTrip
pub mod Formats
use ca.Base.{
  ℕ, ◌+◌, ◌-◌, ◌^◌, bit_and, bit_or, bit_xor, Result, ok, throw, bind, illegal_instruction, ◌==◌,
  if◌then◌else◌, u64, ◌<<<◌, ◌>>>◌,
}
use ca.Base.Int.{ℤ, pos, signed}

pub data InstructionType : Type 0 where
  r_type i_type s_type b_type u_type j_type : InstructionType

-- An enumeration over `uint8_t`; `unnamed` is a value that has no name.
pub data Opcode : Type 0 where
  op op_imm op_32 op_imm_32 load store branch jalr jal lui auipc : Opcode
  unnamed : ℕ → Opcode

-- `static_cast<Opcode>`.
unfoldable pub to_opcode : ℕ → Opcode
to_opcode n =
    if n == 0x33
    then op
    else if n == 0x13
    then op_imm
    else if n == 0x3B
    then op_32
    else if n == 0x1B
    then op_imm_32
    else if n == 0x03
    then load
    else if n == 0x23
    then store
    else if n == 0x63
    then branch
    else if n == 0x67
    then jalr
    else if n == 0x6F
    then jal
    else if n == 0x37
    then lui
    else if n == 0x17
    then auipc
    else unnamed n

pub record InstructionDecoder : Type 0 where
  pub instruction_word : ℕ

unfoldable pub set_instruction_word : ℕ → InstructionDecoder → InstructionDecoder
set_instruction_word word d = record d { instruction_word = word }

unfoldable pub get_opcode : InstructionDecoder → Opcode
get_opcode d = to_opcode (bit_and d.instruction_word 0x7F)

unfoldable pub get_rs1 : InstructionDecoder → ℕ
get_rs1 d = bit_and (d.instruction_word >>> 15) 0x1F

unfoldable pub get_rs2 : InstructionDecoder → ℕ
get_rs2 d = bit_and (d.instruction_word >>> 20) 0x1F

unfoldable pub get_rd : InstructionDecoder → ℕ
get_rd d = bit_and (d.instruction_word >>> 7) 0x1F

unfoldable pub get_funct3 : InstructionDecoder → ℕ
get_funct3 d = bit_and (d.instruction_word >>> 12) 0x07

unfoldable pub get_funct7 : InstructionDecoder → ℕ
get_funct7 d = bit_and (d.instruction_word >>> 25) 0x7F

-- The `switch` of `getInstructionType`.
unfoldable pub type_of_opcode : Opcode → Result InstructionType
type_of_opcode op = ok r_type
type_of_opcode op_32 = ok r_type
type_of_opcode op_imm = ok i_type
type_of_opcode op_imm_32 = ok i_type
type_of_opcode load = ok i_type
type_of_opcode jalr = ok i_type
type_of_opcode store = ok s_type
type_of_opcode branch = ok b_type
type_of_opcode lui = ok u_type
type_of_opcode auipc = ok u_type
type_of_opcode jal = ok j_type
type_of_opcode (unnamed n) = throw (illegal_instruction "Unknown opcode")

unfoldable pub get_instruction_type : InstructionDecoder → Result InstructionType
get_instruction_type d = type_of_opcode (get_opcode d)

-- The subtraction wraps in `uint64_t`.
unfoldable pub sign_extend : ℕ → ℕ → ℤ
sign_extend value bits =
    let mask = u64 (1 <<< (bits - 1)) in signed 64 (u64 (bit_xor value mask + 2 ^ 64 - mask))

unfoldable pub get_immediate_i : InstructionDecoder → ℤ
get_immediate_i d = let imm = bit_and (d.instruction_word >>> 20) 0xFFF in sign_extend imm 12

unfoldable pub get_immediate_s : InstructionDecoder → ℤ
get_immediate_s d =
    let w = d.instruction_word in
    let imm = bit_or (bit_and (w >>> 25) 0x7F <<< 5) (bit_and (w >>> 7) 0x1F) in sign_extend imm 12

unfoldable pub get_immediate_b : InstructionDecoder → ℤ
get_immediate_b d =
    let w = d.instruction_word in
    let imm =
      bit_or
        (bit_or (bit_or (bit_and (w >>> 31) 0x1 <<< 12) (bit_and (w >>> 7) 0x1 <<< 11))
          (bit_and (w >>> 25) 0x3F <<< 5))
        (bit_and (w >>> 8) 0xF <<< 1) in
    sign_extend imm 13

-- The mask is done in `uint32_t`, whose value `int64_t` holds.
unfoldable pub get_immediate_u : InstructionDecoder → ℤ
get_immediate_u d = pos (bit_and d.instruction_word 0xFFFFF000)

unfoldable pub get_immediate_j : InstructionDecoder → ℤ
get_immediate_j d =
    let w = d.instruction_word in
    let imm =
      bit_or
        (bit_or (bit_or (bit_and (w >>> 31) 0x1 <<< 20) (bit_and (w >>> 21) 0x3FF <<< 1))
          (bit_and (w >>> 20) 0x1 <<< 11))
        (bit_and (w >>> 12) 0xFF <<< 12) in
    sign_extend imm 21

-- The `switch` of `getImmediate`.
unfoldable pub immediate_of_type : InstructionType → InstructionDecoder → ℤ
immediate_of_type i_type d = get_immediate_i d
immediate_of_type s_type d = get_immediate_s d
immediate_of_type b_type d = get_immediate_b d
immediate_of_type u_type d = get_immediate_u d
immediate_of_type j_type d = get_immediate_j d
immediate_of_type r_type d = pos 0

unfoldable pub get_immediate : InstructionDecoder → Result ℤ
get_immediate d = bind (get_instruction_type d) (λ t. ok (immediate_of_type t d))
