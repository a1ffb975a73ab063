-- ===== src/InstFormatter/Errors.antt =====
-- Exceptions inside the formatter of src/inst-formatter.cc.
use ca.Base.{
  ℕ, ◌≡◌, refl, arith, Bool, true, false, ◌&&◌, ◌||◌, ◌==◌, if◌then◌else◌, Result, ok, throw, bind,
  bit_and, illegal_instruction,
}
use ca.Base
use ca.Base.Text.{Text, codes}
use ca.Decoder.{
  InstructionDecoder, Opcode, op, op_imm, op_32, op_imm_32, load, store, branch, jalr, jal, lui,
  auipc, unnamed, get_opcode,
}
use ca.InstFormatter as Formatter
use ca.InstFormatter.{
  format_op_type, format_op_32_type, format_op_imm, format_op_imm_32, format_load, format_store,
  format_branch, format_opcode, format_compressed_instruction, format_instruction, caught, format,
}
use ca.InstFormatter.Cases.{succeeds}

-- Nothing but `IllegalInstruction` is thrown.
abbrev throws_only_illegal : Result Text → Bool
throws_only_illegal (ok text) = true
throws_only_illegal (throw (illegal_instruction what)) = true
throws_only_illegal _ = false

opcode_throws_only_illegal :
    (o : Opcode) (d : InstructionDecoder) → throws_only_illegal (format_opcode o d) ≡ true
unfolding format_opcode format_op_type format_op_32_type format_op_imm format_op_imm_32 format_load
    format_store format_branch
opcode_throws_only_illegal op d = ground arith
opcode_throws_only_illegal op_imm d = ground arith
opcode_throws_only_illegal op_32 d = ground arith
opcode_throws_only_illegal op_imm_32 d = ground arith
opcode_throws_only_illegal load d = ground arith
opcode_throws_only_illegal store d = ground arith
opcode_throws_only_illegal branch d = ground arith
opcode_throws_only_illegal jalr d = refl
opcode_throws_only_illegal jal d = refl
opcode_throws_only_illegal lui d = refl
opcode_throws_only_illegal auipc d = refl
opcode_throws_only_illegal (unnamed n) d = refl

compressed_throws_only_illegal :
    (inst : ℕ) → throws_only_illegal (format_compressed_instruction inst) ≡ true
unfolding format_compressed_instruction
compressed_throws_only_illegal inst = ground arith

instruction_throws_only_illegal :
    (d : InstructionDecoder) → throws_only_illegal (format_instruction d) ≡ true
unfolding format_instruction
instruction_throws_only_illegal d = ground (
  arith,
  opcode_throws_only_illegal (get_opcode d) d,
  compressed_throws_only_illegal (Formatter.low16 d.instruction_word),
)

caught-cases :
    (r : Result Text)
    → throws_only_illegal r ≡ true
    → caught r ≡ (if succeeds r then r else ok (codes "illegal instruction"))
unfolding caught
caught-cases (ok text) h = refl
caught-cases (throw (illegal_instruction what)) h = refl
caught-cases (throw e) h = ground arith
caught-cases Base.Result.undefined h = ground arith

-- For every instruction word, the formatter never throws: it gives the text of the instruction or,
-- where a part of it throws, the words for an illegal instruction.
pub format-cases :
    (d : InstructionDecoder)
    → format d ≡ (
        if succeeds (format_instruction d)
        then format_instruction d
        else ok (codes "illegal instruction"))
unfolding format
format-cases d = caught-cases (format_instruction d) (instruction_throws_only_illegal d)
