-- ===== src/InstFormatter/Tests.antt =====
-- The text of some words.
use ca.Base.{◌≡◌, ◌≢◌, refl, arith, ok}
use ca.Base.Text.{codes}
use ca.Base.Decimal.{to_string, to_string_ℤ, digits}
use ca.Control.{set_from_instruction}
use ca.Decoder.{
  InstructionDecoder, branch, get_opcode, to_opcode, get_rd, get_rs1, get_funct3, get_funct7,
  get_immediate_i, sign_extend,
}
use ca.InstFormatter as Formatter
use ca.InstFormatter.{
  format, caught, format_instruction, format_opcode, format_op_imm, format_op_type, format_register,
  format_immediate, emit_unary_op, emit_binary_op, format_compressed_instruction,
}
use ca.InstFormatter.Cases.{succeeds, is_known, format_instruction-set_from_instruction}

-- addi r1, r2, -5
abbrev addi_word : InstructionDecoder
addi_word = record { instruction_word = 0xFFB10093 }

addi_text : format addi_word ≡ ok (codes "addi r1, r2, $-5")
unfolding format caught format_instruction format_opcode format_op_imm format_register
    format_immediate emit_unary_op get_opcode to_opcode get_rd get_rs1 get_funct3 get_funct7
    get_immediate_i sign_extend to_string_ℤ to_string digits
addi_text = refl

-- A shift by 32, whose amount reaches into funct7.
abbrev wide_shift : InstructionDecoder
wide_shift = record { instruction_word = 0x02009093 }

wide_shift_text : format wide_shift ≡ ok (codes "illegal instruction")
unfolding format caught format_instruction format_opcode format_op_imm get_opcode to_opcode
    get_funct3 get_funct7
wide_shift_text = refl

-- c.addiw r1, -1
compressed_text :
    format (record { instruction_word = 0x30FD })
    ≡ ok (codes "addiw r1, r1, $4294967295  \t(compressed)")
unfolding format caught format_instruction format_compressed_instruction format_register
    format_immediate Formatter.sign_extend to_string_ℤ to_string digits
compressed_text = refl

not_branch : get_opcode addi_word ≢ branch
unfolding get_opcode to_opcode
not_branch = ground arith

format_instruction-set_from_instruction_example :
    succeeds (format_instruction addi_word) ≡ is_known (set_from_instruction addi_word)
format_instruction-set_from_instruction_example =
    format_instruction-set_from_instruction addi_word refl not_branch
