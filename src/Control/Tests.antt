-- ===== src/Control/Tests.antt =====
-- The signals of single instructions.
use ca.Base.{◌≡◌, ◌<◌, ◌*◌, ◌/◌, ◌^◌, ◌↔◌, refl, arith, true, inl}
use ca.Base.Int.{unsigned}
use ca.Alu.{AluOp}
use ca.Alu.Reference.{sext32}
use ca.Decoder.{get_immediate_u}
use ca.Decoder.Encoding.{Operands, IsEncodable, encode_i}
use ca.Decoder.Fields.{decoder}
use ca.Control.{set_from_instruction}
use ca.Control.Laws.{
  IsConsistent, set_from_instruction-IsConsistent, shift_immediate, wide_shift_unrecognised,
  immediate_u_sign_iff,
}

-- sd r3, 0x108(r0)
set_from_instruction-IsConsistent_example :
    IsConsistent (set_from_instruction (decoder 0x1030_3423))
set_from_instruction-IsConsistent_example = set_from_instruction-IsConsistent (decoder 0x1030_3423)

-- slli r5, r6, 32
abbrev wide_shift : Operands
wide_shift = record { opcode = 0x13; rd = 5; rs1 = 6; rs2 = 0; funct3 = 1; funct7 = 0 }

wide_shift-IsEncodable : IsEncodable wide_shift
wide_shift-IsEncodable = omega arith

wide_shift_unrecognised_example :
    let c = set_from_instruction (decoder (encode_i wide_shift (shift_immediate 0 32))) in
    (c.alu_op ≡ AluOp.nop) × (c.reg_write ≡ true)
wide_shift_unrecognised_example =
    wide_shift_unrecognised wide_shift 0 32 wide_shift-IsEncodable refl (inl refl) (inl refl)
      (omega arith) (omega arith)

-- lui r1, 0x80000
immediate_u_sign_iff_example :
    (unsigned 64 (get_immediate_u (decoder 0x8000_00b7)) ≡ sext32 (0x8000_00b7 / 2 ^ 12 * 2 ^ 12))
    ↔ (0x8000_00b7 < 2 ^ 31)
immediate_u_sign_iff_example = immediate_u_sign_iff 0x8000_00b7 (omega arith)
