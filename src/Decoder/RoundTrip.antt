-- ===== src/Decoder/RoundTrip.antt =====
-- src/inst-decoder.cc: the decoder on words that are put together in one of the formats.
use ca.Base.{ℕ, ◌*◌, ◌%◌, ◌^◌, ◌<◌, ◌≡◌, arith, ap, ◌∙◌}
use ca.Base.Int.{pos, signed}
use ca.Decoder.{
  to_opcode, get_opcode, get_rs1, get_rs2, get_rd, get_funct3, get_funct7, get_immediate_i,
  get_immediate_s, get_immediate_b, get_immediate_u, get_immediate_j,
}
use ca.Decoder.Encoding.{
  Operands, IsEncodable, encode_r, encode_i, encode_s, encode_b, encode_u, encode_j,
}
use ca.Decoder.Fields.{
  decoder, opcode_as_mod, register_fields, function_fields, immediate_i_as_mod, immediate_s_as_sum,
  immediate_b_as_sum, immediate_u_as_mul, immediate_j_as_sum,
}

-- Register-register format: for fields that fit their places, the decoder gives all six fields of
-- the encoded word back.
pub decode-encode_r :
    (o : Operands)
    → IsEncodable o
    → let d = decoder (encode_r o) in
      (get_opcode d ≡ to_opcode o.opcode)
      × (get_rd d ≡ o.rd)
      × (get_funct3 d ≡ o.funct3)
      × (get_rs1 d ≡ o.rs1)
      × (get_rs2 d ≡ o.rs2)
      × (get_funct7 d ≡ o.funct7)
decode-encode_r o h =
    let w = encode_r o in
    (
      opcode_as_mod w ∙ ap to_opcode (omega arith),
      (register_fields w).0 ∙ omega arith,
      (function_fields w).0 ∙ omega arith,
      (register_fields w).1 ∙ omega arith,
      (register_fields w).2 ∙ omega arith,
      (function_fields w).1 ∙ omega arith,
    )

-- Immediate format: for fields that fit their places and a pattern below 2 ^ 12, the decoder gives
-- opcode, rd, funct3 and rs1 back, and the immediate is the pattern read in two's complement.
pub decode-encode_i :
    (o : Operands) (imm : ℕ)
    → IsEncodable o
    → imm < 2 ^ 12
    → let d = decoder (encode_i o imm) in
      (get_opcode d ≡ to_opcode o.opcode)
      × (get_rd d ≡ o.rd)
      × (get_funct3 d ≡ o.funct3)
      × (get_rs1 d ≡ o.rs1)
      × (get_immediate_i d ≡ signed 12 imm)
decode-encode_i o imm h fits =
    let w = encode_i o imm in
    (
      opcode_as_mod w ∙ ap to_opcode (omega arith),
      (register_fields w).0 ∙ omega arith,
      (function_fields w).0 ∙ omega arith,
      (register_fields w).1 ∙ omega arith,
      immediate_i_as_mod w ∙ ap (signed 12) (omega arith),
    )

-- Store format: for fields that fit their places and a pattern below 2 ^ 12, the decoder gives
-- opcode, funct3, rs1 and rs2 back, and the immediate is the pattern read in two's complement.
pub decode-encode_s :
    (o : Operands) (imm : ℕ)
    → IsEncodable o
    → imm < 2 ^ 12
    → let d = decoder (encode_s o imm) in
      (get_opcode d ≡ to_opcode o.opcode)
      × (get_funct3 d ≡ o.funct3)
      × (get_rs1 d ≡ o.rs1)
      × (get_rs2 d ≡ o.rs2)
      × (get_immediate_s d ≡ signed 12 imm)
decode-encode_s o imm h fits =
    let w = encode_s o imm in
    (
      opcode_as_mod w ∙ ap to_opcode (omega arith),
      (function_fields w).0 ∙ omega arith,
      (register_fields w).1 ∙ omega arith,
      (register_fields w).2 ∙ omega arith,
      immediate_s_as_sum w ∙ ap (signed 12) (omega arith),
    )

-- Branch format: for fields that fit their places and an even pattern below 2 ^ 13, the decoder
-- gives opcode, funct3, rs1 and rs2 back, and the immediate is the pattern read in two's
-- complement.
pub decode-encode_b :
    (o : Operands) (imm : ℕ)
    → IsEncodable o
    → imm < 2 ^ 13
    → imm % 2 ≡ 0
    → let d = decoder (encode_b o imm) in
      (get_opcode d ≡ to_opcode o.opcode)
      × (get_funct3 d ≡ o.funct3)
      × (get_rs1 d ≡ o.rs1)
      × (get_rs2 d ≡ o.rs2)
      × (get_immediate_b d ≡ signed 13 imm)
decode-encode_b o imm h fits even =
    let w = encode_b o imm in
    (
      opcode_as_mod w ∙ ap to_opcode (omega arith),
      (function_fields w).0 ∙ omega arith,
      (register_fields w).1 ∙ omega arith,
      (register_fields w).2 ∙ omega arith,
      immediate_b_as_sum w ∙ ap (signed 13) (omega arith),
    )

-- Upper-immediate format: for fields that fit their places and a pattern below 2 ^ 20, the decoder
-- gives opcode and rd back, and the immediate is the pattern times 2 ^ 12, without a sign.
pub decode-encode_u :
    (o : Operands) (imm : ℕ)
    → IsEncodable o
    → imm < 2 ^ 20
    → let d = decoder (encode_u o imm) in
      (get_opcode d ≡ to_opcode o.opcode)
      × (get_rd d ≡ o.rd)
      × (get_immediate_u d ≡ pos (imm * 2 ^ 12))
decode-encode_u o imm h fits =
    let w = encode_u o imm in
    (
      opcode_as_mod w ∙ ap to_opcode (omega arith),
      (register_fields w).0 ∙ omega arith,
      immediate_u_as_mul w (omega arith) ∙ ap pos (omega arith),
    )

-- Jump format: for fields that fit their places and an even pattern below 2 ^ 21, the decoder gives
-- opcode and rd back, and the immediate is the pattern read in two's complement.
pub decode-encode_j :
    (o : Operands) (imm : ℕ)
    → IsEncodable o
    → imm < 2 ^ 21
    → imm % 2 ≡ 0
    → let d = decoder (encode_j o imm) in
      (get_opcode d ≡ to_opcode o.opcode) × (get_rd d ≡ o.rd) × (get_immediate_j d ≡ signed 21 imm)
decode-encode_j o imm h fits even =
    let w = encode_j o imm in
    (
      opcode_as_mod w ∙ ap to_opcode (omega arith),
      (register_fields w).0 ∙ omega arith,
      immediate_j_as_sum w ∙ ap (signed 21) (omega arith),
    )
