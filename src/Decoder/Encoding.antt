-- ===== src/Decoder/Encoding.antt =====
-- The instruction formats of the RISC-V manual, as sums of fields: what the decoder takes apart.
use ca.Base.{ℕ, ◌+◌, ◌*◌, ◌/◌, ◌%◌, ◌^◌, ◌<◌}

-- The fields that the formats share, in the places that they share.
pub record Operands : Type 0 where
  pub opcode : ℕ
  pub rd : ℕ
  pub funct3 : ℕ
  pub rs1 : ℕ
  pub rs2 : ℕ
  pub funct7 : ℕ

pub record IsEncodable (o : Operands) : Type 0 where
  pub opcode_fits : o.opcode < 2 ^ 7
  pub rd_fits : o.rd < 2 ^ 5
  pub funct3_fits : o.funct3 < 2 ^ 3
  pub rs1_fits : o.rs1 < 2 ^ 5
  pub rs2_fits : o.rs2 < 2 ^ 5
  pub funct7_fits : o.funct7 < 2 ^ 7

abbrev pub encode_r : Operands → ℕ
encode_r o =
    o.opcode
    + o.rd * 2 ^ 7
    + o.funct3 * 2 ^ 12
    + o.rs1 * 2 ^ 15
    + o.rs2 * 2 ^ 20
    + o.funct7 * 2 ^ 25

-- A 12-bit pattern in bits 31 to 20.
abbrev pub encode_i : Operands → ℕ → ℕ
encode_i o imm = o.opcode + o.rd * 2 ^ 7 + o.funct3 * 2 ^ 12 + o.rs1 * 2 ^ 15 + imm * 2 ^ 20

-- imm[11:5] in bits 31 to 25, imm[4:0] in bits 11 to 7.
abbrev pub encode_s : Operands → ℕ → ℕ
encode_s o imm =
    o.opcode
    + imm % 32 * 2 ^ 7
    + o.funct3 * 2 ^ 12
    + o.rs1 * 2 ^ 15
    + o.rs2 * 2 ^ 20
    + imm / 32 * 2 ^ 25

-- The pattern has 13 bits and is even: imm[12|10:5] in bits 31 to 25, imm[4:1|11] in 11 to 7.
abbrev pub encode_b : Operands → ℕ → ℕ
encode_b o imm =
    o.opcode
    + imm / 2 ^ 11 % 2 * 2 ^ 7
    + imm / 2 % 16 * 2 ^ 8
    + o.funct3 * 2 ^ 12
    + o.rs1 * 2 ^ 15
    + o.rs2 * 2 ^ 20
    + imm / 32 % 64 * 2 ^ 25
    + imm / 2 ^ 12 * 2 ^ 31

-- A 20-bit pattern in bits 31 to 12.
abbrev pub encode_u : Operands → ℕ → ℕ
encode_u o imm = o.opcode + o.rd * 2 ^ 7 + imm * 2 ^ 12

-- The pattern has 21 bits and is even: imm[20|10:1|11|19:12] in bits 31 to 12.
abbrev pub encode_j : Operands → ℕ → ℕ
encode_j o imm =
    o.opcode
    + o.rd * 2 ^ 7
    + imm / 2 ^ 12 % 256 * 2 ^ 12
    + imm / 2 ^ 11 % 2 * 2 ^ 20
    + imm / 2 % 1024 * 2 ^ 21
    + imm / 2 ^ 20 * 2 ^ 31
