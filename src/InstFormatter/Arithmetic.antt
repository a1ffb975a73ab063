-- ===== src/InstFormatter/Arithmetic.antt =====
-- The register-register and register-immediate instructions in src/inst-formatter.cc.
use ca.Base.{ℕ, bit_and, Result, ok, throw, illegal_instruction, ◌==◌, ◌&&◌, ◌||◌, if◌then◌else◌}
use ca.Base.Int.{ℤ, pos, unsigned}
use ca.Base.Text.{Text, codes}
use ca.Decoder.{
  InstructionDecoder, get_rs1, get_rs2, get_rd, get_funct3, get_funct7, get_immediate_i,
}
use ca.InstFormatter.Operands.{emit_binary_op, emit_unary_op}

unfoldable pub format_op_type : InstructionDecoder → Result Text
format_op_type d =
    let funct3 = get_funct3 d in
    let funct7 = get_funct7 d in
    let rd = get_rd d in
    let rs1 = get_rs1 d in
    let rs2 = get_rs2 d in
    if funct3 == 0x0 && funct7 == 0x00
    then ok (emit_binary_op (codes "add") rd rs1 rs2)
    else if funct3 == 0x0 && funct7 == 0x20
    then ok (emit_binary_op (codes "sub") rd rs1 rs2)
    else if funct3 == 0x1 && funct7 == 0x00
    then ok (emit_binary_op (codes "sll") rd rs1 rs2)
    else if funct3 == 0x2 && funct7 == 0x00
    then ok (emit_binary_op (codes "slt") rd rs1 rs2)
    else if funct3 == 0x3 && funct7 == 0x00
    then ok (emit_binary_op (codes "sltu") rd rs1 rs2)
    else if funct3 == 0x4 && funct7 == 0x00
    then ok (emit_binary_op (codes "xor") rd rs1 rs2)
    else if funct3 == 0x5 && funct7 == 0x00
    then ok (emit_binary_op (codes "srl") rd rs1 rs2)
    else if funct3 == 0x5 && funct7 == 0x20
    then ok (emit_binary_op (codes "sra") rd rs1 rs2)
    else if funct3 == 0x6 && funct7 == 0x00
    then ok (emit_binary_op (codes "or") rd rs1 rs2)
    else if funct3 == 0x7 && funct7 == 0x00
    then ok (emit_binary_op (codes "and") rd rs1 rs2)
    else throw (illegal_instruction "Unknown R-type instruction")

unfoldable pub format_op_32_type : InstructionDecoder → Result Text
format_op_32_type d =
    let funct3 = get_funct3 d in
    let funct7 = get_funct7 d in
    let rd = get_rd d in
    let rs1 = get_rs1 d in
    let rs2 = get_rs2 d in
    if funct3 == 0x0 && funct7 == 0x00
    then ok (emit_binary_op (codes "addw") rd rs1 rs2)
    else if funct3 == 0x0 && funct7 == 0x20
    then ok (emit_binary_op (codes "subw") rd rs1 rs2)
    else if funct3 == 0x1 && funct7 == 0x00
    then ok (emit_binary_op (codes "sllw") rd rs1 rs2)
    else if funct3 == 0x5 && funct7 == 0x00
    then ok (emit_binary_op (codes "srlw") rd rs1 rs2)
    else if funct3 == 0x5 && funct7 == 0x20
    then ok (emit_binary_op (codes "sraw") rd rs1 rs2)
    else throw (illegal_instruction "Unknown RV64 R-type instruction")

-- `imm & mask` on an `int64_t`, for a mask that is not negative.
abbrev and_mask : ℤ → ℕ → ℤ
and_mask imm mask = pos (bit_and (unsigned 64 imm) mask)

unfoldable pub format_op_imm : InstructionDecoder → Result Text
format_op_imm d =
    let funct3 = get_funct3 d in
    let funct7 = get_funct7 d in
    let rd = get_rd d in
    let rs1 = get_rs1 d in
    let imm = get_immediate_i d in
    if funct3 == 0x0
    then ok (emit_unary_op (codes "addi") rd rs1 imm)
    else if funct3 == 0x2
    then ok (emit_unary_op (codes "slti") rd rs1 imm)
    else if funct3 == 0x3
    then ok (emit_unary_op (codes "sltiu") rd rs1 imm)
    else if funct3 == 0x4
    then ok (emit_unary_op (codes "xori") rd rs1 imm)
    else if funct3 == 0x6
    then ok (emit_unary_op (codes "ori") rd rs1 imm)
    else if funct3 == 0x7
    then ok (emit_unary_op (codes "andi") rd rs1 imm)
    else if funct3 == 0x1 && funct7 == 0x00
    then ok (emit_unary_op (codes "slli") rd rs1 (and_mask imm 0x3F))
    else if funct3 == 0x5 && funct7 == 0x00
    then ok (emit_unary_op (codes "srli") rd rs1 (and_mask imm 0x3F))
    else if funct3 == 0x5 && funct7 == 0x20
    then ok (emit_unary_op (codes "srai") rd rs1 (and_mask imm 0x3F))
    else if funct3 == 0x1 || funct3 == 0x5
    then throw (illegal_instruction "Unknown shift immediate")
    else throw (illegal_instruction "Unknown immediate instruction")

unfoldable pub format_op_imm_32 : InstructionDecoder → Result Text
format_op_imm_32 d =
    let funct3 = get_funct3 d in
    let funct7 = get_funct7 d in
    let rd = get_rd d in
    let rs1 = get_rs1 d in
    let imm = get_immediate_i d in
    if funct3 == 0x0
    then ok (emit_unary_op (codes "addiw") rd rs1 imm)
    else if funct3 == 0x1 && funct7 == 0x00
    then ok (emit_unary_op (codes "slliw") rd rs1 (and_mask imm 0x1F))
    else if funct3 == 0x5 && funct7 == 0x00
    then ok (emit_unary_op (codes "srliw") rd rs1 (and_mask imm 0x1F))
    else if funct3 == 0x5 && funct7 == 0x20
    then ok (emit_unary_op (codes "sraiw") rd rs1 (and_mask imm 0x1F))
    else if funct3 == 0x1 || funct3 == 0x5
    then throw (illegal_instruction "Unknown RV64 shift immediate")
    else throw (illegal_instruction "Unknown RV64 immediate instruction")
