-- ===== src/Stages/Execute.antt =====
-- ExecuteStage of src/stages.h and src/stages.cc.
use ca.Base.{
  ℕ, ◌+◌, ◌-◌, ◌^◌, bit_and, Bool, true, false, not, ◌&&◌, ◌||◌, Result, ok, bind, returns, lift,
  pure, ◌>>=◌, ◌>>◌, get, modify, ltb, ◌==◌, if◌then◌else◌, u64,
}
use ca.Base
use ca.Base.Int.{ℤ, pos, negsuc, ◌+ℤ◌, ltb_ℤ, signed, unsigned}
use ca.Alu.{Alu, set_a, set_b, set_op, get_result}
use ca.Decoder.{Opcode, auipc, lui, jal, jalr}
use ca.Control.{ControlSignals}
use ca.Stages.{Pipeline, IdEx, ExM, MWb, Step}
use ca.Stages.Decode.{write_back_value}

unfoldable pub evaluate_branch : ℕ → ℕ → ℕ → Bool
evaluate_branch funct3 lhs rhs =
    if funct3 == 0x0
    then lhs == rhs
    else if funct3 == 0x1
    then not (lhs == rhs)
    else if funct3 == 0x4
    then ltb_ℤ (signed 64 lhs) (signed 64 rhs)
    else if funct3 == 0x5
    then not (ltb_ℤ (signed 64 lhs) (signed 64 rhs))
    else if funct3 == 0x6
    then ltb lhs rhs
    else if funct3 == 0x7
    then not (ltb lhs rhs)
    else false

unfoldable pub compute_pc_relative_target : ℕ → ℤ → ℕ
compute_pc_relative_target base offset = u64 (base + unsigned 64 offset)

-- The ALU result of the instruction ahead can be used.
unfoldable pub ex_stage_can_forward : ExM → Bool
ex_stage_can_forward e = e.control.reg_write && not e.control.mem_to_reg && not (e.rd == 0)

-- The value of a source register, of the results that are not yet in the register file. The source
-- has this text twice, for `rs1` and for `rs2`.
unfoldable pub forward : ExM → MWb → ℕ → ℕ → ℕ
forward e m rs read =
    let from_ex = if ex_stage_can_forward e && e.rd == rs then e.alu_result else read in
    if m.control.reg_write
      && not (m.rd == 0)
      && (m.rd == rs && (not (ex_stage_can_forward e) || not (e.rd == rs)))
    then write_back_value m
    else from_ex

unfoldable pub operand_a : Opcode → ℕ → ℕ → ℕ
operand_a auipc pc rs1_value = pc
operand_a lui pc rs1_value = 0
operand_a _ pc rs1_value = rs1_value

unfoldable pub operand_b : ControlSignals → ℤ → ℕ → ℕ
operand_b c immediate rs2_value = if c.alu_src then unsigned 64 immediate else rs2_value

-- A sum of `int64_t`, whose overflow is undefined.
unfoldable pub int64_sum : ℤ → ℤ → Result ℤ
int64_sum a b =
    let z = a +ℤ b in
    if ltb_ℤ (negsuc (2 ^ 63)) z && ltb_ℤ z (pos (2 ^ 63)) then ok z else Base.Result.undefined

-- ~1 is the mask of all bits but the lowest.
unfoldable pub jump_target : Opcode → ℕ → ℤ → ℕ → Result ℕ
jump_target jal pc immediate rs1_value = ok (compute_pc_relative_target pc immediate)
jump_target jalr pc immediate rs1_value =
    bind (int64_sum (signed 64 rs1_value) immediate)
      (λ raw. ok (bit_and (unsigned 64 raw) (2 ^ 64 - 2)))
jump_target _ pc immediate rs1_value = ok (u64 (pc + 4))

-- The ALU's result, which `auipc` replaces.
unfoldable pub adjust_result : Opcode → ℕ → ℤ → ℕ → ℕ
adjust_result auipc pc immediate result = compute_pc_relative_target pc immediate
adjust_result _ pc immediate result = result

-- What the stage finds out about an instruction.
pub record Executed : Type 0 where
  pub result : ℕ
  pub pc_write_enable : Bool
  pub next_pc : ℕ

unfoldable pub next_instruction : IdEx → ℕ → ℕ → ℕ → Result Executed
next_instruction i rs1_value rs2_value result =
    let taken = i.control.is_branch && evaluate_branch i.funct3 rs1_value rs2_value in
    let branched = if taken then compute_pc_relative_target i.pc i.immediate else 0 in
    if i.control.is_jump
    then bind (jump_target i.opcode i.pc i.immediate rs1_value) (λ target.
      ok (record { result = u64 (i.pc + 4); pc_write_enable = true; next_pc = target }))
    else ok (record { result = result; pc_write_enable = taken; next_pc = branched })

-- The part of `propagate` behind the forwarding, for given values of the source registers.
unfoldable pub execute_instruction : IdEx → Alu → ℕ → ℕ → Result (Executed × Alu)
execute_instruction i alu rs1_value rs2_value =
    let a = operand_a i.opcode i.pc rs1_value in
    let b = operand_b i.control i.immediate rs2_value in
    let alu' = set_op i.control.alu_op (set_b b (set_a a alu)) in
    bind (get_result alu') λ r.
      bind (next_instruction i rs1_value rs2_value (adjust_result i.opcode i.pc i.immediate r))
        λ e. ok (e, alu')

unfoldable pub source_value : Pipeline → ℕ → ℕ → ℕ
source_value p rs read = if p.pipelining then forward p.ex_m p.m_wb rs read else read

unfoldable pub propagate : Step
propagate = do
  p ← get
  let i = p.id_ex
  let rs1_value = source_value p i.rs1 i.read_data1
  let rs2_value = source_value p i.rs2 i.read_data2
  modify λ q. record q {
    execute = record (q.execute) { pc = i.pc; pc_write_enable = false; next_pc = 0 };
  }
  r ← lift (execute_instruction i p.execute.alu rs1_value rs2_value)
  modify λ q. record q {
    execute = record (q.execute) {
      alu = r.1;
      alu_result = r.0.result;
      pc_write_enable = r.0.pc_write_enable;
      next_pc = r.0.next_pc;
      write_data = rs2_value;
      next_rd = i.rd;
      next_control = i.control;
    };
    control =
        (if r.0.pc_write_enable
          then record (q.control) { flush_fetch = true; flush_decode = true }
          else q.control);
  }

unfoldable pub clock_pulse : Step
clock_pulse p =
    let x = p.execute in
    let q = record p {
      ex_m = record {
        pc = x.pc;
        alu_result = x.alu_result;
        write_data = x.write_data;
        rd = x.next_rd;
        control = x.next_control;
      };
    } in
    returns tt (
      if x.pc_write_enable
      then record q { pc = x.next_pc; execute = record x { pc_write_enable = false } }
      else q)
