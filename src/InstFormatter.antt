-- ===== src/InstFormatter.antt =====
-- src/inst-formatter.cc: the text of an instruction. What goes to the stream is a text; each branch
-- either throws before it writes, or writes all of it.
mod Operands
mod Compressed
mod Arithmetic
pub mod Cases
pub mod Errors
mod Tests
unfoldable pub use Operands.*
unfoldable pub use Compressed.*
unfoldable pub use Arithmetic.*
use ca.Base.{
  ℕ, ◌+◌, ◌-◌, ◌^◌, ◌%◌, bit_and, bit_or, bit_xor, String, List, [], ◌∷◌, ◌++◌, Result, ok, throw,
  bind, illegal_instruction, ◌==◌, ◌&&◌, ◌||◌, if◌then◌else◌, u8, u16, u32, ◌<<<◌, ◌>>>◌,
}
use ca.Base.Int.{ℤ, pos, unsigned, shift_right_ℤ}
use ca.Base.Text.{Text, codes}
use ca.Base.Decimal.{to_string, to_string_ℤ}
use ca.Decoder.{
  InstructionDecoder, Opcode, op, op_imm, op_32, op_imm_32, load, store, branch, jalr, jal, lui,
  auipc, unnamed, get_opcode, get_rs1, get_rs2, get_rd, get_funct3, get_funct7, get_immediate_i,
  get_immediate_s, get_immediate_b, get_immediate_u, get_immediate_j,
}

unfoldable pub format_load : InstructionDecoder → Result Text
format_load d =
    let funct3 = get_funct3 d in
    let rd = get_rd d in
    let rs1 = get_rs1 d in
    let imm = get_immediate_i d in
    if funct3 == 0x0
    then ok (emit_load (codes "lb") rd rs1 imm)
    else if funct3 == 0x1
    then ok (emit_load (codes "lh") rd rs1 imm)
    else if funct3 == 0x2
    then ok (emit_load (codes "lw") rd rs1 imm)
    else if funct3 == 0x3
    then ok (emit_load (codes "ld") rd rs1 imm)
    else if funct3 == 0x4
    then ok (emit_load (codes "lbu") rd rs1 imm)
    else if funct3 == 0x5
    then ok (emit_load (codes "lhu") rd rs1 imm)
    else if funct3 == 0x6
    then ok (emit_load (codes "lwu") rd rs1 imm)
    else throw (illegal_instruction "Unknown load")

unfoldable pub format_store : InstructionDecoder → Result Text
format_store d =
    let funct3 = get_funct3 d in
    let rs1 = get_rs1 d in
    let rs2 = get_rs2 d in
    let imm = get_immediate_s d in
    if funct3 == 0x0
    then ok (emit_store (codes "sb") rs2 rs1 imm)
    else if funct3 == 0x1
    then ok (emit_store (codes "sh") rs2 rs1 imm)
    else if funct3 == 0x2
    then ok (emit_store (codes "sw") rs2 rs1 imm)
    else if funct3 == 0x3
    then ok (emit_store (codes "sd") rs2 rs1 imm)
    else throw (illegal_instruction "Unknown store")

abbrev branch_text : Text → ℕ → ℕ → ℤ → Text
branch_text mnemonic rs1 rs2 imm =
    mnemonic
    ++ codes " "
    ++ format_register rs1
    ++ codes ", "
    ++ format_register rs2
    ++ codes ", "
    ++ format_immediate imm

unfoldable pub format_branch : InstructionDecoder → Result Text
format_branch d =
    let funct3 = get_funct3 d in
    let rs1 = get_rs1 d in
    let rs2 = get_rs2 d in
    let imm = get_immediate_b d in
    if funct3 == 0x0
    then ok (branch_text (codes "beq") rs1 rs2 imm)
    else if funct3 == 0x1
    then ok (branch_text (codes "bne") rs1 rs2 imm)
    else if funct3 == 0x4
    then ok (branch_text (codes "blt") rs1 rs2 imm)
    else if funct3 == 0x5
    then ok (branch_text (codes "bge") rs1 rs2 imm)
    else if funct3 == 0x6
    then ok (branch_text (codes "bltu") rs1 rs2 imm)
    else if funct3 == 0x7
    then ok (branch_text (codes "bgeu") rs1 rs2 imm)
    else throw (illegal_instruction "Unknown branch")

-- The `switch` on the opcode.
unfoldable pub format_opcode : Opcode → InstructionDecoder → Result Text
format_opcode op d = format_op_type d
format_opcode op_imm d = format_op_imm d
format_opcode op_32 d = format_op_32_type d
format_opcode op_imm_32 d = format_op_imm_32 d
format_opcode load d = format_load d
format_opcode store d = format_store d
format_opcode branch d = format_branch d
format_opcode jalr d = ok (
    codes "jalr "
    ++ format_register (get_rd d)
    ++ codes ", "
    ++ format_immediate (get_immediate_i d)
    ++ codes "("
    ++ format_register (get_rs1 d)
    ++ codes ")")
format_opcode jal d = ok (
    codes "jal "
    ++ format_register (get_rd d)
    ++ codes ", "
    ++ format_immediate (get_immediate_j d))
format_opcode lui d = ok (
    codes "lui "
    ++ format_register (get_rd d)
    ++ codes ", "
    ++ format_immediate (shift_right_ℤ (get_immediate_u d) 12))
format_opcode auipc d = ok (
    codes "auipc "
    ++ format_register (get_rd d)
    ++ codes ", "
    ++ format_immediate (shift_right_ℤ (get_immediate_u d) 12))
format_opcode (unnamed n) d = throw (illegal_instruction "Unknown opcode")

-- The body of the `try`.
unfoldable pub format_instruction : InstructionDecoder → Result Text
format_instruction d =
    if bit_and d.instruction_word 0x3 == 0x3
    then format_opcode (get_opcode d) d
    else format_compressed_instruction (low16 d.instruction_word)

-- Only `IllegalInstruction` is caught.
unfoldable pub caught : Result Text → Result Text
caught (throw (illegal_instruction what)) = ok (codes "illegal instruction")
caught r = r

unfoldable pub format : InstructionDecoder → Result Text
unfolding caught
format d = caught (format_instruction d)
