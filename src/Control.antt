-- ===== src/Control.antt =====
-- The class ControlSignals of src/stages.h and src/stages.cc: what the other stages do for an
-- instruction.
pub mod Laws
mod Tests
use ca.Base.{ℕ, Bool, true, false, ◌&&◌, ◌==◌, if◌then◌else◌}
use ca.Alu.{AluOp}
use ca.Decoder.{
  InstructionDecoder, Opcode, op, op_imm, op_32, op_imm_32, load, store, branch, jalr, jal, lui,
  auipc, unnamed, get_opcode, get_funct3, get_funct7,
}

pub record ControlSignals : Type 0 where
  pub reg_write : Bool
  pub alu_src : Bool
  pub mem_read : Bool
  pub mem_write : Bool
  pub mem_to_reg : Bool
  pub is_branch : Bool
  pub is_jump : Bool
  pub alu_op : AluOp
  pub mem_size : ℕ
  pub mem_sign_extend : Bool

-- The constructor, and the default values that `setFromInstruction` begins with.
abbrev pub no_signals : ControlSignals
no_signals = record {
  reg_write = false;
  alu_src = false;
  mem_read = false;
  mem_write = false;
  mem_to_reg = false;
  is_branch = false;
  is_jump = false;
  alu_op = AluOp.nop;
  mem_size = 0;
  mem_sign_extend = false;
}

unfoldable pub op_alu_op : ℕ → ℕ → AluOp
op_alu_op funct3 funct7 =
    if funct3 == 0x0 && funct7 == 0x00
    then AluOp.add
    else if funct3 == 0x0 && funct7 == 0x20
    then AluOp.sub
    else if funct3 == 0x1 && funct7 == 0x00
    then AluOp.sll
    else if funct3 == 0x2 && funct7 == 0x00
    then AluOp.slt
    else if funct3 == 0x3 && funct7 == 0x00
    then AluOp.sltu
    else if funct3 == 0x4 && funct7 == 0x00
    then AluOp.xor
    else if funct3 == 0x5 && funct7 == 0x00
    then AluOp.srl
    else if funct3 == 0x5 && funct7 == 0x20
    then AluOp.sra
    else if funct3 == 0x6 && funct7 == 0x00
    then AluOp.or
    else if funct3 == 0x7 && funct7 == 0x00
    then AluOp.and
    else AluOp.nop

unfoldable pub op_imm_alu_op : ℕ → ℕ → AluOp
op_imm_alu_op funct3 funct7 =
    if funct3 == 0x0
    then AluOp.add
    else if funct3 == 0x2
    then AluOp.slt
    else if funct3 == 0x3
    then AluOp.sltu
    else if funct3 == 0x4
    then AluOp.xor
    else if funct3 == 0x6
    then AluOp.or
    else if funct3 == 0x7
    then AluOp.and
    else if funct3 == 0x1 && funct7 == 0x00
    then AluOp.sll
    else if funct3 == 0x5 && funct7 == 0x00
    then AluOp.srl
    else if funct3 == 0x5 && funct7 == 0x20
    then AluOp.sra
    else AluOp.nop

unfoldable pub op_32_alu_op : ℕ → ℕ → AluOp
op_32_alu_op funct3 funct7 =
    if funct3 == 0x0 && funct7 == 0x00
    then AluOp.addw
    else if funct3 == 0x0 && funct7 == 0x20
    then AluOp.subw
    else if funct3 == 0x1 && funct7 == 0x00
    then AluOp.sllw
    else if funct3 == 0x5 && funct7 == 0x00
    then AluOp.srlw
    else if funct3 == 0x5 && funct7 == 0x20
    then AluOp.sraw
    else AluOp.nop

unfoldable pub op_imm_32_alu_op : ℕ → ℕ → AluOp
op_imm_32_alu_op funct3 funct7 =
    if funct3 == 0x0
    then AluOp.addw
    else if funct3 == 0x1 && funct7 == 0x00
    then AluOp.sllw
    else if funct3 == 0x5 && funct7 == 0x00
    then AluOp.srlw
    else if funct3 == 0x5 && funct7 == 0x20
    then AluOp.sraw
    else AluOp.nop

-- A load's size in bytes and whether it extends the sign.
unfoldable pub load_size : ℕ → ℕ × Bool
load_size funct3 =
    if funct3 == 0x0
    then (1, true)
    else if funct3 == 0x1
    then (2, true)
    else if funct3 == 0x2
    then (4, true)
    else if funct3 == 0x3
    then (8, false)
    else if funct3 == 0x4
    then (1, false)
    else if funct3 == 0x5
    then (2, false)
    else if funct3 == 0x6
    then (4, false)
    else (0, false)

unfoldable pub store_size : ℕ → ℕ
store_size funct3 =
    if funct3 == 0x0
    then 1
    else if funct3 == 0x1
    then 2
    else if funct3 == 0x2
    then 4
    else if funct3 == 0x3
    then 8
    else 0

-- The `switch` of `setFromInstruction`.
unfoldable pub signals : Opcode → ℕ → ℕ → ControlSignals
signals op funct3 funct7 = record no_signals { reg_write = true; alu_op = op_alu_op funct3 funct7 }
signals op_imm funct3 funct7 = record no_signals {
  reg_write = true;
  alu_src = true;
  alu_op = op_imm_alu_op funct3 funct7;
}
signals op_32 funct3 funct7 = record no_signals {
  reg_write = true;
  alu_op = op_32_alu_op funct3 funct7;
}
signals op_imm_32 funct3 funct7 = record no_signals {
  reg_write = true;
  alu_src = true;
  alu_op = op_imm_32_alu_op funct3 funct7;
}
signals load funct3 funct7 = record no_signals {
  reg_write = true;
  alu_src = true;
  mem_read = true;
  mem_to_reg = true;
  alu_op = AluOp.add;
  mem_size = (load_size funct3).0;
  mem_sign_extend = (load_size funct3).1;
}
signals store funct3 funct7 = record no_signals {
  alu_src = true;
  mem_write = true;
  alu_op = AluOp.add;
  mem_size = store_size funct3;
}
signals branch funct3 funct7 = record no_signals { is_branch = true; alu_op = AluOp.sub }
signals jal funct3 funct7 = record no_signals {
  reg_write = true;
  is_jump = true;
  alu_op = AluOp.add;
  alu_src = true;
}
signals jalr funct3 funct7 = record no_signals {
  reg_write = true;
  is_jump = true;
  alu_op = AluOp.add;
  alu_src = true;
}
signals lui funct3 funct7 = record no_signals {
  reg_write = true;
  alu_src = true;
  alu_op = AluOp.add;
}
signals auipc funct3 funct7 = record no_signals {
  reg_write = true;
  alu_src = true;
  alu_op = AluOp.add;
}
signals (unnamed n) funct3 funct7 = no_signals

-- No field keeps its old value, so the old signals are no argument.
unfoldable pub set_from_instruction : InstructionDecoder → ControlSignals
set_from_instruction d = signals (get_opcode d) (get_funct3 d) (get_funct7 d)
