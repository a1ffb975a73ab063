-- ===== src/InstFormatter/Operands.antt =====
-- Registers, immediates and operands in src/inst-formatter.cc.
use ca.Base.{ℕ, ◌+◌, ◌-◌, ◌^◌, bit_and, bit_xor, ◌++◌, u16, u32, ◌<<<◌}
use ca.Base.Int.{ℤ, pos}
use ca.Base.Text.{Text, codes}
use ca.Base.Decimal.{to_string, to_string_ℤ}

unfoldable pub format_register : ℕ → Text
format_register reg = codes "r" ++ to_string reg

unfoldable pub format_immediate : ℤ → Text
format_immediate value = codes "$" ++ to_string_ℤ value

abbrev pub low16 : ℕ → ℕ
low16 word = u16 (bit_and word 0xFFFF)

-- The arithmetic is in `uint32_t`, and the conversion to `int64_t` keeps the unsigned value.
unfoldable pub sign_extend : ℕ → ℕ → ℤ
sign_extend value bits =
    let mask = u32 (1 <<< (bits - 1)) in pos (u32 (bit_xor value mask + 2 ^ 32 - mask))

unfoldable pub emit_binary_op : Text → ℕ → ℕ → ℕ → Text
emit_binary_op mnemonic rd rs1 rs2 =
    mnemonic
    ++ codes " "
    ++ format_register rd
    ++ codes ", "
    ++ format_register rs1
    ++ codes ", "
    ++ format_register rs2

unfoldable pub emit_unary_op : Text → ℕ → ℕ → ℤ → Text
emit_unary_op mnemonic rd rs1 imm =
    mnemonic
    ++ codes " "
    ++ format_register rd
    ++ codes ", "
    ++ format_register rs1
    ++ codes ", "
    ++ format_immediate imm

unfoldable pub emit_load : Text → ℕ → ℕ → ℤ → Text
emit_load mnemonic rd rs1 imm =
    mnemonic
    ++ codes " "
    ++ format_register rd
    ++ codes ", "
    ++ format_immediate imm
    ++ codes "("
    ++ format_register rs1
    ++ codes ")"

unfoldable pub emit_store : Text → ℕ → ℕ → ℤ → Text
emit_store mnemonic rs2 rs1 imm =
    mnemonic
    ++ codes " "
    ++ format_register rs2
    ++ codes ", "
    ++ format_immediate imm
    ++ codes "("
    ++ format_register rs1
    ++ codes ")"
