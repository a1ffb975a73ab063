-- ===== src/Decoder/Formats.antt =====
-- src/inst-decoder.cc: instructions in each of the six formats of the manual, and what the decoder
-- has to find in their words, the immediate chosen by the opcode included.
use ca.Base.{Option, none, some, refl, ℕ, ◌*◌, ◌%◌, ◌^◌, ◌<◌, ◌≡◌, ap, ◌∙◌, ok, bind}
use ca.Base.Int.{ℤ, pos, signed}
use ca.Decoder.{
  InstructionDecoder, Opcode, op, op_imm, op_32, op_imm_32, load, store, branch, jalr, jal, lui,
  auipc, unnamed, InstructionType, r_type, i_type, s_type, b_type, u_type, j_type, to_opcode,
  get_opcode, get_rs1, get_rs2, get_rd, get_funct3, get_funct7, get_immediate, get_instruction_type,
  type_of_opcode, immediate_of_type,
}
use ca.Decoder.Encoding.{
  Operands, IsEncodable, encode_r, encode_i, encode_s, encode_b, encode_u, encode_j,
}
use ca.Decoder.Fields.{decoder}
use ca.Decoder.RoundTrip.{
  decode-encode_r, decode-encode_i, decode-encode_s, decode-encode_b, decode-encode_u,
  decode-encode_j,
}

-- The opcodes of the manual, by their names.
abbrev pub code : Opcode → ℕ
code load = 0x03
code op_imm = 0x13
code auipc = 0x17
code op_imm_32 = 0x1B
code store = 0x23
code op = 0x33
code lui = 0x37
code op_32 = 0x3B
code branch = 0x63
code jalr = 0x67
code jal = 0x6F
code (unnamed n) = n

-- The format that the manual gives the instructions of an opcode.
abbrev pub format_of : Opcode → Option InstructionType
format_of op = some r_type
format_of op_32 = some r_type
format_of load = some i_type
format_of op_imm = some i_type
format_of op_imm_32 = some i_type
format_of jalr = some i_type
format_of store = some s_type
format_of branch = some b_type
format_of lui = some u_type
format_of auipc = some u_type
format_of jal = some j_type
format_of (unnamed n) = none

-- An opcode by its name, the fields, and the pattern of the immediate.
pub data Instruction : Type 0 where
  r_format : Opcode → Operands → Instruction
  i_format s_format b_format u_format j_format : Opcode → Operands → ℕ → Instruction

abbrev pub encode : Instruction → ℕ
encode (r_format n o) = encode_r o
encode (i_format n o imm) = encode_i o imm
encode (s_format n o imm) = encode_s o imm
encode (b_format n o imm) = encode_b o imm
encode (u_format n o imm) = encode_u o imm
encode (j_format n o imm) = encode_j o imm

-- The fields fit their places, and the opcode is the one of that name, which has the format.
pub record HasType (n : Opcode) (o : Operands) (t : InstructionType) : Type 0 where
  pub encodable : IsEncodable o
  pub named : o.opcode ≡ code n
  pub typed : format_of n ≡ some t

abbrev pub IsInstruction : Instruction → Type 0
IsInstruction (r_format n o) = HasType n o r_type
IsInstruction (i_format n o imm) = HasType n o i_type × (imm < 2 ^ 12)
IsInstruction (s_format n o imm) = HasType n o s_type × (imm < 2 ^ 12)
IsInstruction (b_format n o imm) = HasType n o b_type × (imm < 2 ^ 13) × (imm % 2 ≡ 0)
IsInstruction (u_format n o imm) = HasType n o u_type × (imm < 2 ^ 20)
IsInstruction (j_format n o imm) = HasType n o j_type × (imm < 2 ^ 21) × (imm % 2 ≡ 0)

-- The fields that the format has, and the opcode by its name.
abbrev pub DecodesTo : Instruction → InstructionDecoder → Type 0
DecodesTo (r_format n o) d =
    (get_opcode d ≡ n)
    × (get_rd d ≡ o.rd)
    × (get_funct3 d ≡ o.funct3)
    × (get_rs1 d ≡ o.rs1)
    × (get_rs2 d ≡ o.rs2)
    × (get_funct7 d ≡ o.funct7)
DecodesTo (i_format n o imm) d =
    (get_opcode d ≡ n)
    × (get_rd d ≡ o.rd)
    × (get_funct3 d ≡ o.funct3)
    × (get_rs1 d ≡ o.rs1)
    × (get_immediate d ≡ ok (signed 12 imm))
DecodesTo (s_format n o imm) d =
    (get_opcode d ≡ n)
    × (get_funct3 d ≡ o.funct3)
    × (get_rs1 d ≡ o.rs1)
    × (get_rs2 d ≡ o.rs2)
    × (get_immediate d ≡ ok (signed 12 imm))
DecodesTo (b_format n o imm) d =
    (get_opcode d ≡ n)
    × (get_funct3 d ≡ o.funct3)
    × (get_rs1 d ≡ o.rs1)
    × (get_rs2 d ≡ o.rs2)
    × (get_immediate d ≡ ok (signed 13 imm))
DecodesTo (u_format n o imm) d =
    (get_opcode d ≡ n) × (get_rd d ≡ o.rd) × (get_immediate d ≡ ok (pos (imm * 2 ^ 12)))
DecodesTo (j_format n o imm) d =
    (get_opcode d ≡ n) × (get_rd d ≡ o.rd) × (get_immediate d ≡ ok (signed 21 imm))

-- The decoder reads the opcodes of the manual, and gives each its format.
opcode_lem :
    (n : Opcode) (t : InstructionType)
    → format_of n ≡ some t
    → (to_opcode (code n) ≡ n) × (type_of_opcode n ≡ ok t)
unfolding to_opcode type_of_opcode
opcode_lem op t e = (refl, cc)
opcode_lem op_32 t e = (refl, cc)
opcode_lem load t e = (refl, cc)
opcode_lem op_imm t e = (refl, cc)
opcode_lem op_imm_32 t e = (refl, cc)
opcode_lem jalr t e = (refl, cc)
opcode_lem store t e = (refl, cc)
opcode_lem branch t e = (refl, cc)
opcode_lem lui t e = (refl, cc)
opcode_lem auipc t e = (refl, cc)
opcode_lem jal t e = (refl, cc)
opcode_lem (unnamed k) t e = cc

named_lem :
    (n : Opcode) (o : Operands) (t : InstructionType) (d : InstructionDecoder)
    → HasType n o t
    → get_opcode d ≡ to_opcode o.opcode
    → get_opcode d ≡ n
named_lem n o t d h e = e ∙ ap to_opcode h.named ∙ (opcode_lem n t h.typed).0

-- The immediate is that of the opcode's format.
immediate_of_opcode :
    (n : Opcode) (o : Operands) (t : InstructionType) (d : InstructionDecoder) (z : ℤ)
    → HasType n o t
    → get_opcode d ≡ to_opcode o.opcode
    → immediate_of_type t d ≡ z
    → get_immediate d ≡ ok z
unfolding get_immediate get_instruction_type
immediate_of_opcode n o t d z h same imm =
    let typed : type_of_opcode (get_opcode d) ≡ ok t =
      ap type_of_opcode (named_lem n o t d h same) ∙ (opcode_lem n t h.typed).1 in
    ap (λ r. bind r (λ t'. ok (immediate_of_type t' d))) typed ∙ ap ok imm

-- For an instruction of any of the six formats, with fields that fit their places, the manual's code
-- of an opcode that the manual gives this format, and an immediate pattern of its width that is even
-- for branches and jumps: the decoder finds that opcode and all other fields of the format in the
-- encoded word, and the immediate is the pattern read in two's complement, for the upper-immediate
-- format the pattern times 2 ^ 12.
pub decode-encode : (i : Instruction) → IsInstruction i → DecodesTo i (decoder (encode i))
unfolding immediate_of_type
decode-encode (r_format n o) h =
    let (opcode, rd, funct3, rs1, rs2, funct7) = decode-encode_r o h.encodable in
    (named_lem n o r_type _ h opcode, rd, funct3, rs1, rs2, funct7)
decode-encode (i_format n o imm) (h, fits) =
    let (opcode, rd, funct3, rs1, z) = decode-encode_i o imm h.encodable fits in
    (
      named_lem n o i_type _ h opcode,
      rd,
      funct3,
      rs1,
      immediate_of_opcode n o i_type _ _ h opcode z,
    )
decode-encode (s_format n o imm) (h, fits) =
    let (opcode, funct3, rs1, rs2, z) = decode-encode_s o imm h.encodable fits in
    (
      named_lem n o s_type _ h opcode,
      funct3,
      rs1,
      rs2,
      immediate_of_opcode n o s_type _ _ h opcode z,
    )
decode-encode (b_format n o imm) (h, fits, even) =
    let (opcode, funct3, rs1, rs2, z) = decode-encode_b o imm h.encodable fits even in
    (
      named_lem n o b_type _ h opcode,
      funct3,
      rs1,
      rs2,
      immediate_of_opcode n o b_type _ _ h opcode z,
    )
decode-encode (u_format n o imm) (h, fits) =
    let (opcode, rd, z) = decode-encode_u o imm h.encodable fits in
    (named_lem n o u_type _ h opcode, rd, immediate_of_opcode n o u_type _ _ h opcode z)
decode-encode (j_format n o imm) (h, fits, even) =
    let (opcode, rd, z) = decode-encode_j o imm h.encodable fits even in
    (named_lem n o j_type _ h opcode, rd, immediate_of_opcode n o j_type _ _ h opcode z)
