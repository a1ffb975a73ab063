-- ===== src/Control/Laws.antt =====
-- The signals against the instruction set.
use ca.Base.{ℕ, ◌+◌, ◌*◌, ◌/◌, ◌^◌, ◌<◌, ◌≤◌, ◌≡◌, arith, true, false, not, ◌&&◌, ◌↔◌, ap, ◌∙◌, ◌⊎◌}
use ca.Base.Int.{unsigned}
use ca.Alu.{AluOp}
use ca.Alu.Reference.{sext32}
use ca.Decoder.{
  InstructionDecoder, Opcode, op, op_imm, to_opcode, get_opcode, get_funct3, get_funct7,
  get_immediate_u,
}
use ca.Decoder.Encoding.{Operands, IsEncodable, encode_i}
use ca.Decoder.Fields.{decoder, function_fields, immediate_u_as_mul}
use ca.Decoder.RoundTrip.{decode-encode_i}
use ca.Control.{ControlSignals, signals, set_from_instruction, op_imm_alu_op}

-- What the later stages rely on.
pub record IsConsistent (c : ControlSignals) : Type 0 where
  pub loads_write_back : c.mem_to_reg ≡ c.mem_read
  pub jumps_link : (c.is_jump && not c.reg_write) ≡ false
  pub one_access : (c.mem_read && c.mem_write) ≡ false
  pub stores_write_no_register : (c.mem_write && c.reg_write) ≡ false
  pub one_transfer : (c.is_branch && c.is_jump) ≡ false
  pub branches_write_no_register : (c.is_branch && c.reg_write) ≡ false

signals-IsConsistent : (o : Opcode) (funct3 funct7 : ℕ) → IsConsistent (signals o funct3 funct7)
unfolding signals
signals-IsConsistent op f g = ground arith
signals-IsConsistent _ f g = ground arith

-- Whatever the instruction word: the register's value comes from memory exactly for loads, no
-- instruction both reads and writes memory or both branches and jumps, stores and branches write no
-- register, and jumps write one.
pub set_from_instruction-IsConsistent :
    (d : InstructionDecoder) → IsConsistent (set_from_instruction d)
unfolding set_from_instruction
set_from_instruction-IsConsistent d =
    signals-IsConsistent (get_opcode d) (get_funct3 d) (get_funct7 d)

-- A shift by an immediate whose amount is `shamt`, in the encoding of the manual for 64 bits: six
-- bits of shift amount below six bits of function code, here 0, or 16 for `srai`.
abbrev pub shift_immediate : ℕ → ℕ → ℕ
shift_immediate funct6 shamt = funct6 * 64 + shamt

funct7-encode_i :
    (o : Operands) (imm : ℕ)
    → IsEncodable o
    → imm < 2 ^ 12
    → get_funct7 (decoder (encode_i o imm)) ≡ imm / 32
funct7-encode_i o imm h fits = (function_fields (encode_i o imm)).1 ∙ omega arith

-- For slli, srli and srai with fields that fit their places and a shift amount from 32 to 63, which
-- are legal on 64-bit registers, the ALU is told to do nothing, and its result is still written to
-- the register.
pub wide_shift_unrecognised :
    (o : Operands) (funct6 shamt : ℕ)
    → IsEncodable o
    → o.opcode ≡ 0x13
    → (o.funct3 ≡ 1) ⊎ (o.funct3 ≡ 5)
    → (funct6 ≡ 0) ⊎ (funct6 ≡ 16)
    → 32 ≤ shamt
    → shamt < 64
    → let c = set_from_instruction (decoder (encode_i o (shift_immediate funct6 shamt))) in
      (c.alu_op ≡ AluOp.nop) × (c.reg_write ≡ true)
unfolding set_from_instruction to_opcode
wide_shift_unrecognised o funct6 shamt h is_op_imm is_shift code low high =
    let imm = shift_immediate funct6 shamt in
    let fits : imm < 2 ^ 12 = omega arith in
    let fields = decode-encode_i o imm h fits in
    rw (fields.0 ∙ ap to_opcode is_op_imm, fields.2, funct7-encode_i o imm h fits)
      (unrecognised o.funct3 (imm / 32) is_shift (omega arith))
  where
    unrecognised :
        (funct3 funct7 : ℕ)
        → (funct3 ≡ 1) ⊎ (funct3 ≡ 5)
        → (funct7 ≡ 1) ⊎ (funct7 ≡ 33)
        → let c = signals op_imm funct3 funct7 in (c.alu_op ≡ AluOp.nop) × (c.reg_write ≡ true)
    unrecognised funct3 funct7 e e' = unfold signals op_imm_alu_op in ground arith

-- For an instruction word below 2 ^ 32, the 64-bit pattern of the upper immediate is the
-- sign-extended one of the manual exactly if the top bit of the word is clear.
pub immediate_u_sign_iff :
    (w : ℕ)
    → w < 2 ^ 32
    → (unsigned 64 (get_immediate_u (decoder w)) ≡ sext32 (w / 2 ^ 12 * 2 ^ 12)) ↔ (w < 2 ^ 31)
immediate_u_sign_iff w h = rw (immediate_u_as_mul w h) (ground arith)
