-- ===== src/Pipeline/Overlapped/Operands.antt =====
-- The values on which an instruction works while others are under way.
use ca.Base.{
  ℕ, ◌<◌, ◌≡◌, refl, ap, ◌∙◌, arith, Bool, true, false, not, ◌&&◌, ok, bind, ◌==◌, if◌then◌else◌,
  inl, inr, Bool-cases,
}
use ca.Base.Int.{ℤ}
use ca.Alu.{Alu, set_a, set_b, set_op}
use ca.Decoder.{
  InstructionDecoder, Opcode, op, op_32, store, branch, unnamed, get_opcode, get_funct3, get_funct7,
  get_immediate, get_instruction_type, immediate_of_type, type_of_opcode,
}
use ca.Decoder.Fields.{decoder}
use ca.RegFile.{RegisterFile}
use ca.RegFile.Laws.{IsComplete, value, value-zero, written, value-written, written-IsComplete}
use ca.Bus.{MemoryBus}
use ca.MemoryControl.{get_data_out, data_clock_pulse}
use ca.Control.{ControlSignals, signals, set_from_instruction}
use ca.Stages.{IdEx, ExM, MWb}
use ca.Stages.Decode.{instruction_uses_rs2, write_back_value}
use ca.Stages.Execute.{
  execute_instruction, next_instruction, operand_b, forward, ex_stage_can_forward,
}
use ca.Stages.Forwarding.{commit_write_back}
use ca.Pipeline.OneStage.{issued, port}

-- An instruction in the memory stage, with the value that it loads, as the last stage has it.
abbrev pub passed : ExM → ℕ → MWb
passed e loaded = record {
  pc = e.pc;
  alu_result = e.alu_result;
  mem_data = loaded;
  rd = e.rd;
  control = e.control;
}

-- The register file once both instructions have written back.
abbrev pub committed : ExM → ℕ → MWb → RegisterFile → RegisterFile
committed e loaded m rf = commit_write_back (passed e loaded) (commit_write_back m rf)

pub commit-IsComplete :
    (m : MWb) (rf : RegisterFile) → IsComplete rf → IsComplete (commit_write_back m rf)
commit-IsComplete m rf c = ground (arith, written-IsComplete rf m.rd (write_back_value m) c)

value-commit :
    (m : MWb) (rf : RegisterFile) (rs : ℕ)
    → IsComplete rf
    → m.rd < 32
    → value (commit_write_back m rf) rs ≡ (
        if m.control.reg_write && (m.rd == rs)
        then (if rs == 0 then 0 else write_back_value m)
        else value rf rs)
value-commit m rf rs c h =
    ground (arith, value-written rf m.rd rs (write_back_value m) c h, value-zero rf)

-- The value that is forwarded is the one of the register file behind both instructions, unless the
-- nearer one loads the register.
pub forward-eq-value :
    (e : ExM) (m : MWb) (rf : RegisterFile) (rs loaded : ℕ)
    → IsComplete rf
    → e.rd < 32
    → m.rd < 32
    → (e.control.mem_to_reg && not (e.rd == 0) && e.rd == rs) ≡ false
    → forward e m rs (value rf rs) ≡ value (committed e loaded m rf) rs
unfolding forward ex_stage_can_forward
forward-eq-value e m rf rs loaded c he hm no_load = ground (
  arith,
  value-commit (passed e loaded) (commit_write_back m rf) rs (commit-IsComplete m rf c) he,
  value-commit m rf rs c hm,
  value-zero rf,
)

-- Only the registers matter, not the settings of the ports.
pub commit-registers :
    (m : MWb) (rf rf' : RegisterFile)
    → rf.registers ≡ rf'.registers
    → (commit_write_back m rf).registers ≡ (commit_write_back m rf').registers
unfolding written
commit-registers m rf rf' e = ground arith

pub value-registers :
    (rf rf' : RegisterFile) (rs : ℕ) → rf.registers ≡ rf'.registers → value rf rs ≡ value rf' rs
unfolding value
value-registers rf rf' rs e = rw e refl

-- An instruction without a second source register takes its immediate, and is no branch.
signals-rs2 :
    (o : Opcode) (f g : ℕ) (d : InstructionDecoder) (imm : ℤ)
    → bind (type_of_opcode o) (λ t. ok (immediate_of_type t d)) ≡ ok imm
    → instruction_uses_rs2 o ≡ false
    → ((signals o f g).alu_src ≡ true) × ((signals o f g).is_branch ≡ false)
unfolding signals type_of_opcode instruction_uses_rs2
signals-rs2 op f g d imm e none_used = cc
signals-rs2 op_32 f g d imm e none_used = cc
signals-rs2 store f g d imm e none_used = cc
signals-rs2 branch f g d imm e none_used = cc
signals-rs2 (unnamed n) f g d imm e none_used = cc
signals-rs2 _ f g d imm e none_used = (refl, refl)

immediate_operand :
    (w : ℕ) (imm : ℤ)
    → get_immediate (decoder w) ≡ ok imm
    → instruction_uses_rs2 (get_opcode (decoder w)) ≡ false
    → let c = set_from_instruction (decoder w) in (c.alu_src ≡ true) × (c.is_branch ≡ false)
unfolding set_from_instruction get_immediate get_instruction_type
immediate_operand w imm e none_used =
    let d = decoder w in signals-rs2 (get_opcode d) (get_funct3 d) (get_funct7 d) d imm e none_used

without_rs2 :
    (i : IdEx) (alu : Alu) (a b b' : ℕ)
    → i.control.alu_src ≡ true
    → i.control.is_branch ≡ false
    → execute_instruction i alu a b ≡ execute_instruction i alu a b'
unfolding execute_instruction next_instruction operand_b
without_rs2 i alu a b b' e₁ e₂ = rw (e₁, e₂) refl

-- The settings of the ALU and the values that were read do not matter for what an instruction does
-- with the values that it is given.
execute_given :
    (i : IdEx) (alu alu' : Alu) (v₁ v₂ a b : ℕ)
    → execute_instruction (record i { read_data1 = v₁; read_data2 = v₂ }) alu a b
      ≡ execute_instruction i alu' a b
unfolding execute_instruction next_instruction set_a set_b set_op
execute_given i alu alu' v₁ v₂ a b = refl

-- What an instruction does depends on its second source register only where it has one.
pub execute_issued :
    (pc w : ℕ) (imm : ℤ) (rf rf' : RegisterFile) (alu alu' : Alu) (v₁ v₂ a b b' : ℕ)
    → get_immediate (decoder w) ≡ ok imm
    → (instruction_uses_rs2 (get_opcode (decoder w)) ≡ true → b ≡ b')
    → execute_instruction (record (issued pc w rf imm) { read_data1 = v₁; read_data2 = v₂ }) alu a b
      ≡ execute_instruction (issued pc w rf' imm) alu' a b'
execute_issued pc w imm rf rf' alu alu' v₁ v₂ a b b' decodes same =
    let i = issued pc w rf imm in
    let i' = issued pc w rf' imm in
    execute_given i' alu alu' v₁ v₂ a b
    ∙ elim (Bool-cases (instruction_uses_rs2 (get_opcode (decoder w)))) [
      | inl used ↦ ap (execute_instruction i' alu' a) (same used)
      | inr unused ↦
          let (e₁, e₂) = immediate_operand w imm decodes unused in without_rs2 i' alu' a b b' e₁ e₂
    ]

-- A store is the only instruction that gives the port data, and has a second source register.
stores_rs2 :
    (o : Opcode) (f g : ℕ) → (signals o f g).mem_write ≡ true → instruction_uses_rs2 o ≡ true
unfolding signals instruction_uses_rs2
stores_rs2 store f g e = refl
stores_rs2 _ f g e = ground arith

unwritten :
    (c : ControlSignals) (addr v v' : ℕ) (bus : MemoryBus)
    → (c.mem_write ≡ true → v ≡ v')
    → data_clock_pulse (port c addr v) bus ≡ data_clock_pulse (port c addr v') bus
unwritten c addr v v' bus same = elim (Bool-cases c.mem_write) [
  | inl e ↦ ap (λ x. data_clock_pulse (port c addr x) bus) (same e)
  | inr e ↦ unfold data_clock_pulse in rw e refl
]

-- What a port of an instruction writes depends on its second source register only where it has one.
pub port_issued :
    (w addr v v' : ℕ) (bus : MemoryBus)
    → (instruction_uses_rs2 (get_opcode (decoder w)) ≡ true → v ≡ v')
    → let c = set_from_instruction (decoder w) in
      data_clock_pulse (port c addr v) bus ≡ data_clock_pulse (port c addr v') bus
unfolding set_from_instruction
port_issued w addr v v' bus same =
    let d = decoder w in
    unwritten (set_from_instruction d) addr v v' bus
      (λ e. same (stores_rs2 (get_opcode d) (get_funct3 d) (get_funct7 d) e))

pub port_read :
    (sign : Bool) (c : ControlSignals) (addr v v' : ℕ) (bus : MemoryBus)
    → get_data_out sign (port c addr v) bus ≡ get_data_out sign (port c addr v') bus
unfolding get_data_out
port_read sign c addr v v' bus = refl
