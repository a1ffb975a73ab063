-- ===== src/InstFormatter/Compressed.antt =====
-- The compressed instructions in src/inst-formatter.cc.
use ca.Base.{
  ℕ, ◌+◌, bit_and, bit_or, ◌++◌, Result, ok, throw, bind, illegal_instruction, ◌==◌, if◌then◌else◌,
  u8, ◌<<<◌, ◌>>>◌,
}
use ca.Base.Int.{pos}
use ca.Base.Text.{Text, codes}
use ca.InstFormatter.Operands.{format_register, format_immediate, sign_extend}

abbrev unsupported : Result Text
unsupported = throw (illegal_instruction "Unsupported compressed instruction")

abbrev compressed_quadrant_0 : ℕ → ℕ → Result Text
compressed_quadrant_0 funct3 inst =
    if funct3 == 0x0
    then (let rd = u8 (bit_and (inst >>> 2) 0x7 + 8) in
        let imm =
          bit_or
            (bit_or (bit_or (bit_and (inst >>> 11) 0x3 <<< 4) (bit_and (inst >>> 7) 0xF <<< 6))
              (bit_and (inst >>> 6) 0x1 <<< 2))
            (bit_and (inst >>> 5) 0x1 <<< 3) in
        ok (
          codes "addi "
          ++ format_register rd
          ++ codes ", "
          ++ format_register 2
          ++ codes ", "
          ++ format_immediate (pos imm)))
    else unsupported

abbrev compressed_quadrant_1 : ℕ → ℕ → Result Text
compressed_quadrant_1 funct3 inst =
    if funct3 == 0x1
    then (let rd = bit_and (inst >>> 7) 0x1F in
        let imm = bit_or (bit_and (inst >>> 12) 0x1 <<< 5) (bit_and (inst >>> 2) 0x1F) in
        ok (
          codes "addiw "
          ++ format_register rd
          ++ codes ", "
          ++ format_register rd
          ++ codes ", "
          ++ format_immediate (sign_extend imm 6)))
    else unsupported

abbrev compressed_quadrant_2 : ℕ → ℕ → Result Text
compressed_quadrant_2 funct3 inst =
    if funct3 == 0x0
    then (let rd = bit_and (inst >>> 7) 0x1F in
        let shamt = bit_or (bit_and (inst >>> 12) 0x1 <<< 5) (bit_and (inst >>> 2) 0x1F) in
        ok (
          codes "slli "
          ++ format_register rd
          ++ codes ", "
          ++ format_register rd
          ++ codes ", "
          ++ format_immediate (pos shamt)))
    else unsupported

unfoldable pub format_compressed_instruction : ℕ → Result Text
format_compressed_instruction inst =
    let quadrant = bit_and inst 0x3 in
    let funct3 = bit_and (inst >>> 13) 0x7 in
    bind
      (if quadrant == 0x0
        then compressed_quadrant_0 funct3 inst
        else if quadrant == 0x1
        then compressed_quadrant_1 funct3 inst
        else if quadrant == 0x2
        then compressed_quadrant_2 funct3 inst
        else unsupported)
      λ text. ok (text ++ codes "  \t(compressed)")
