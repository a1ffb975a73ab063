-- ===== src/Decoder/Tests.antt =====
-- The round trips at concrete instructions.
use ca.Base.{◌≡◌, refl, arith}
use ca.Base.Int.{negsuc}
use ca.Decoder.{branch, get_immediate_j, sign_extend}
use ca.Decoder.Encoding.{Operands}
use ca.Decoder.Fields.{decoder}
use ca.Decoder.Formats.{IsInstruction, Instruction, b_format, encode, DecodesTo, decode-encode}

-- sub r3, r1, r2, and the parts of other instructions on these registers.
abbrev sample : Operands
sample = record { opcode = 0x33; rd = 3; funct3 = 0; rs1 = 1; rs2 = 2; funct7 = 0x20 }

-- jal r1, -4, in the encoding of the manual.
jump_back : get_immediate_j (decoder 0xffdff0ef) ≡ negsuc 3
unfolding get_immediate_j sign_extend
jump_back = refl

-- beq r1, r2, -4
abbrev branch_back : Instruction
branch_back = b_format branch (record sample { opcode = 0x63 }) 0x1ffc

branch_back-IsInstruction : IsInstruction branch_back
branch_back-IsInstruction =
    (record { encodable = omega arith; named = refl; typed = refl }, omega arith, refl)

decode-encode_example : DecodesTo branch_back (decoder (encode branch_back))
decode-encode_example = decode-encode branch_back branch_back-IsInstruction
