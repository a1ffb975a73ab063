-- ===== src/InstFormatter/Cases.antt =====
-- The instructions that the formatter of src/inst-formatter.cc knows, and those that the control
-- signals of src/stages.cc know.
use ca.Base.{
  ℕ, ◌≡◌, ◌≢◌, refl, ap, ◌∙◌, arith, Bool, true, false, not, ◌&&◌, ◌||◌, ◌==◌, if◌then◌else◌,
  Result, ok, throw, bit_and, illegal_instruction,
}
use ca.Base
use ca.Alu.{AluOp}
use ca.Control.{
  ControlSignals, signals, set_from_instruction, op_alu_op, op_imm_alu_op, op_32_alu_op,
  op_imm_32_alu_op, load_size, store_size,
}
use ca.Decoder.{
  InstructionDecoder, Opcode, op, op_imm, op_32, op_imm_32, load, store, branch, jalr, jal, lui,
  auipc, unnamed, get_opcode, get_funct3, get_funct7,
}
use ca.InstFormatter.{
  format_op_type, format_op_32_type, format_op_imm, format_op_imm_32, format_load, format_store,
  format_opcode, format_instruction,
}

abbrev pub succeeds {ℓ} : {A : Type ℓ} → Result A → Bool
succeeds (ok a) = true
succeeds (throw e) = false
succeeds Base.Result.undefined = false

abbrev pub is_operation : AluOp → Bool
is_operation AluOp.nop = false
is_operation o = true

-- The signals make the stages do something for the instruction.
unfoldable pub is_known : ControlSignals → Bool
is_known s = if s.mem_read || s.mem_write then not (s.mem_size == 0) else is_operation s.alu_op

op_is_known :
    (d : InstructionDecoder)
    → succeeds (format_op_type d) ≡ is_operation (op_alu_op (get_funct3 d) (get_funct7 d))
unfolding format_op_type op_alu_op
op_is_known d = ground arith

op_32_is_known :
    (d : InstructionDecoder)
    → succeeds (format_op_32_type d) ≡ is_operation (op_32_alu_op (get_funct3 d) (get_funct7 d))
unfolding format_op_32_type op_32_alu_op
op_32_is_known d = ground arith

op_imm_is_known :
    (d : InstructionDecoder)
    → succeeds (format_op_imm d) ≡ is_operation (op_imm_alu_op (get_funct3 d) (get_funct7 d))
unfolding format_op_imm op_imm_alu_op
op_imm_is_known d = ground arith

op_imm_32_is_known :
    (d : InstructionDecoder)
    → succeeds (format_op_imm_32 d) ≡ is_operation (op_imm_32_alu_op (get_funct3 d) (get_funct7 d))
unfolding format_op_imm_32 op_imm_32_alu_op
op_imm_32_is_known d = ground arith

load_is_known :
    (d : InstructionDecoder) → succeeds (format_load d) ≡ not ((load_size (get_funct3 d)).0 == 0)
unfolding format_load load_size
load_is_known d = ground arith

store_is_known :
    (d : InstructionDecoder) → succeeds (format_store d) ≡ not (store_size (get_funct3 d) == 0)
unfolding format_store store_size
store_is_known d = ground arith

opcode_is_known :
    (o : Opcode) (d : InstructionDecoder)
    → o ≢ branch
    → succeeds (format_opcode o d) ≡ is_known (signals o (get_funct3 d) (get_funct7 d))
unfolding format_opcode signals is_known
opcode_is_known op d h = op_is_known d
opcode_is_known op_imm d h = op_imm_is_known d
opcode_is_known op_32 d h = op_32_is_known d
opcode_is_known op_imm_32 d h = op_imm_32_is_known d
opcode_is_known load d h = load_is_known d
opcode_is_known store d h = store_is_known d
opcode_is_known branch d h = absurd (h refl)
opcode_is_known jalr d h = refl
opcode_is_known jal d h = refl
opcode_is_known lui d h = refl
opcode_is_known auipc d h = refl
opcode_is_known (unnamed n) d h = refl

-- For an uncompressed instruction word that is no branch, the formatter has a text exactly if the
-- control signals make the stages do something: an ALU operation, or for loads and stores a size.
pub format_instruction-set_from_instruction :
    (d : InstructionDecoder)
    → bit_and d.instruction_word 0x3 ≡ 0x3
    → get_opcode d ≢ branch
    → succeeds (format_instruction d) ≡ is_known (set_from_instruction d)
unfolding format_instruction set_from_instruction
format_instruction-set_from_instruction d h k = rw h (opcode_is_known (get_opcode d) d k)
