-- ===== src/Stages/Bounds.antt =====
-- ExecuteStage of src/stages.cc: what it computes fits 64 bits.
use ca.Base.{
  ℕ, ◌+◌, ◌-◌, ◌%◌, ◌^◌, ◌<◌, ◌≡◌, arith, ok, bind, u64, bit_and, refl, if◌then◌else◌, Bool, true,
  false, ◌&&◌, IfGives, IfGives-bind, IfGives-anything, if_elim,
}
use ca.Base.Int.{ℤ, signed, unsigned}
use ca.Base.Bits.{bit_operations_below, bit_and_even}
use ca.Alu.{Alu, set_a, set_b, set_op}
use ca.Alu.Bounds.{unsigned_below, get_result_below}
use ca.Decoder.{Opcode, auipc, lui, jal, jalr}
use ca.Control.{ControlSignals}
use ca.Stages.{IdEx}
use ca.Stages.Execute.{
  Executed, execute_instruction, next_instruction, operand_a, operand_b, evaluate_branch, int64_sum,
  jump_target, adjust_result, compute_pc_relative_target,
}

operand_a_below : (o : Opcode) (pc x : ℕ) → pc < 2 ^ 64 → x < 2 ^ 64 → operand_a o pc x < 2 ^ 64
unfolding operand_a
operand_a_below auipc pc x hp hx = hp
operand_a_below lui pc x hp hx = omega arith
operand_a_below _ pc x hp hx = hx

operand_b_below : (c : ControlSignals) (imm : ℤ) (y : ℕ) → y < 2 ^ 64 → operand_b c imm y < 2 ^ 64
unfolding operand_b
operand_b_below c imm y h = ground (arith, unsigned_below imm)

target_below : (pc : ℕ) (imm : ℤ) → compute_pc_relative_target pc imm < 2 ^ 64
unfolding compute_pc_relative_target
target_below pc imm = omega arith

adjust_result_below :
    (o : Opcode) (pc r : ℕ) (imm : ℤ) → r < 2 ^ 64 → adjust_result o pc imm r < 2 ^ 64
unfolding adjust_result
adjust_result_below auipc pc r imm h = target_below pc imm
adjust_result_below _ pc r imm h = h

-- The mask of a jump through a register keeps the bound and clears the lowest bit.
masked_below : (z : ℤ) → bit_and (unsigned 64 z) (2 ^ 64 - 2) < 2 ^ 64
masked_below z =
    (bit_operations_below 64 (unsigned 64 z) (2 ^ 64 - 2) (unsigned_below z) (omega arith)).0

-- A target, which is even if the jump is through a register.
abbrev IsTarget : Opcode → ℕ → Type 0
IsTarget o t = (t < 2 ^ 64) × (o ≡ jalr → t % 2 ≡ 0)

jump_target-IsTarget :
    (o : Opcode) (pc x : ℕ) (imm : ℤ) → IfGives (IsTarget o) (jump_target o pc imm x)
unfolding jump_target
jump_target-IsTarget jal pc x imm = (target_below pc imm, λ other. cc)
jump_target-IsTarget jalr pc x imm =
    IfGives-bind (λ z. Unit) (IsTarget jalr) (int64_sum (signed 64 x) imm) _
      (IfGives-anything (int64_sum (signed 64 x) imm))
      λ z _. (masked_below z, λ same. bit_and_even (unsigned 64 z) (2 ^ 64 - 2) refl)
jump_target-IsTarget _ pc x imm = (omega arith, λ other. cc)

-- What the stage passes on fits 64 bits, and the target of a jump through a register is even.
abbrev pub IsBounded : IdEx → Executed → Type 0
IsBounded i e =
    (e.result < 2 ^ 64)
    × (e.next_pc < 2 ^ 64)
    × (i.control.is_jump ≡ true → i.opcode ≡ jalr → e.next_pc % 2 ≡ 0)

branched_below :
    (i : IdEx) (x y : ℕ)
    → (if i.control.is_branch && evaluate_branch i.funct3 x y
        then compute_pc_relative_target i.pc i.immediate
        else 0)
      < 2 ^ 64
branched_below i x y =
    if_elim (λ n. n < 2 ^ 64) (i.control.is_branch && evaluate_branch i.funct3 x y) _ 0
      (target_below i.pc i.immediate) (omega arith)

next_instruction-IsBounded :
    (i : IdEx) (x y r : ℕ) → r < 2 ^ 64 → IfGives (IsBounded i) (next_instruction i x y r)
unfolding next_instruction
next_instruction-IsBounded i x y r hr = go i.control.is_jump
  where
    taken : Bool
    taken = i.control.is_branch && evaluate_branch i.funct3 x y

    go :
        (b : Bool)
        → IfGives
            (λ (e : Executed).
              (e.result < 2 ^ 64)
              × (e.next_pc < 2 ^ 64)
              × (b ≡ true → i.opcode ≡ jalr → e.next_pc % 2 ≡ 0))
            (if b
              then bind (jump_target i.opcode i.pc i.immediate x) (λ target.
                ok (record { result = u64 (i.pc + 4); pc_write_enable = true; next_pc = target }))
              else ok (record {
                result = r;
                pc_write_enable = taken;
                next_pc = if taken then compute_pc_relative_target i.pc i.immediate else 0;
              }))
    go true =
        IfGives-bind (IsTarget i.opcode) _ (jump_target i.opcode i.pc i.immediate x) _
          (jump_target-IsTarget i.opcode i.pc x i.immediate) λ t h. (omega arith, h.0, λ _. h.1)
    go false = (hr, branched_below i x y, λ jumps. cc)

-- For a PC and source values below 2 ^ 64, whatever the immediate, the control signals and the ALU
-- are: if the execution of an instruction gives a result, then that, the new PC and both operands of
-- the ALU are below 2 ^ 64, and the new PC of a jump through a register is even.
pub execute_instruction-IsBounded :
    (i : IdEx) (alu : Alu) (x y : ℕ)
    → i.pc < 2 ^ 64
    → x < 2 ^ 64
    → y < 2 ^ 64
    → IfGives
        (λ r. IsBounded i r.0 × (r.1.a < 2 ^ 64) × (r.1.b < 2 ^ 64))
        (execute_instruction i alu x y)
unfolding execute_instruction set_a set_b set_op
execute_instruction-IsBounded i alu x y hp hx hy =
    let ha = operand_a_below i.opcode i.pc x hp hx in
    let hb = operand_b_below i.control i.immediate y hy in
    IfGives-bind (λ r. r < 2 ^ 64) _ _ _ (get_result_below _ ha hb)
      λ r hr.
        IfGives-bind (IsBounded i) _ _ _
          (next_instruction-IsBounded i x y (adjust_result i.opcode i.pc i.immediate r)
            (adjust_result_below i.opcode i.pc r i.immediate hr))
          λ e h. (h, ha, hb)
