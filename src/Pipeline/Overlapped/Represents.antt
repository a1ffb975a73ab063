-- ===== src/Pipeline/Overlapped/Represents.antt =====
-- Which state between two instructions a state of the pipeline stands for: the one that is reached
-- once the instructions in the last two stages are done, and before the one in front of them.
use ca.Base.{
  ℕ, ◌+◌, ◌<◌, ◌≡◌, refl, arith, true, false, not, ◌&&◌, ok, returns, some, ◌==◌, ◌⊎◌, inl, inr,
  u64,
}
use ca.Base.Int.{ℤ}
use ca.Alu.{Alu, AluOp, compute, get_result, set_a, set_b, set_op}
use ca.Decoder.{
  get_rs1, get_rs2, get_rd, get_opcode, get_immediate, to_opcode, get_funct3, get_funct7,
}
use ca.Decoder.Fields.{decoder}
use ca.RegFile.{RegisterFile}
use ca.RegFile.Laws.{IsComplete, value}
use ca.Bus.{MemoryBus}
use ca.MemoryControl.{get_data_out, data_clock_pulse}
use ca.Control.{set_from_instruction, signals, op_imm_alu_op}
use ca.Stages.{Pipeline, IfId, IdEx, ExM, empty_id_ex, nop_instruction}
use ca.Stages.Decode.{instruction_uses_rs2}
use ca.Stages.Execute.{
  Executed, execute_instruction, next_instruction, operand_a, operand_b, adjust_result,
}
use ca.Pipeline.OneStage.{issued, port}
use ca.Pipeline.Overlapped.FetchCycle.{IsRunning}
use ca.Pipeline.SameMemory.{SameMemory}
use ca.Pipeline.Text.{Text, Holds, next}
use ca.Pipeline.Overlapped.Operands.{committed}

-- What the memory operation of the instruction in the memory stage does on a bus.
pub record Accesses (e : ExM) (bus : MemoryBus) (loaded : ℕ) (bus' : MemoryBus) : Type 0 where
  pub read_bus : MemoryBus
  pub reads :
      get_data_out e.control.mem_sign_extend (port e.control e.alu_result e.write_data) bus
      ≡ returns loaded read_bus
  pub writes :
      data_clock_pulse (port e.control e.alu_result e.write_data) read_bus ≡ returns tt bus'

-- The instructions in the memory and write-back stages: after them, the registers and the memory
-- are the given ones.
pub record Behind (text : Text) (p : Pipeline) (rf : RegisterFile) (bus : MemoryBus) : Type 0 where
  pub complete : IsComplete p.regfile
  pub bounds : (p.m_wb.rd < 32) × (p.ex_m.rd < 32)
  pub holds : Holds text p.bus
  pub loaded : ℕ
  pub accessed_bus : MemoryBus
  pub accesses : Accesses p.ex_m p.bus loaded accessed_bus
  pub memory : SameMemory accessed_bus bus
  pub registers : (committed p.ex_m loaded p.m_wb p.regfile).registers ≡ rf.registers

-- An instruction that does nothing.
pub record IsBubble (i : IdEx) : Type 0 where
  pub no_destination : i.rd ≡ 0
  pub no_read : i.control.mem_read ≡ false
  pub no_write : i.control.mem_write ≡ false
  pub no_load : i.control.mem_to_reg ≡ false
  pub no_branch : i.control.is_branch ≡ false
  pub no_jump : i.control.is_jump ≡ false
  pub idle : (i.control.alu_op ≡ AluOp.nop) ⊎ (i.control.alu_op ≡ AluOp.add)

abbrev pub fetched_at : ℕ → ℕ → IfId
fetched_at pc w = record { pc = pc; instruction_word = w }

abbrev pub nop_if_id : IfId
nop_if_id = fetched_at 0 nop_instruction

-- The instruction `w` at `pc` is decoded, with the values in the register file of the source
-- registers that it has, and the instruction in the memory stage loads none of them.
pub record Issued (p : Pipeline) (pc w : ℕ) : Type 0 where
  pub imm : ℤ
  pub rs2_value : ℕ
  pub decodes : get_immediate (decoder w) ≡ ok imm
  pub in_execute : p.id_ex ≡ record (issued pc w p.regfile imm) { read_data2 = rs2_value }
  pub rs2_read :
      instruction_uses_rs2 (get_opcode (decoder w)) ≡ true
      → rs2_value ≡ value p.regfile (get_rs2 (decoder w))
  pub rs1_not_loaded :
      (p.ex_m.control.mem_to_reg && not (p.ex_m.rd == 0) && p.ex_m.rd == get_rs1 (decoder w))
      ≡ false
  pub rs2_not_loaded :
      instruction_uses_rs2 (get_opcode (decoder w)) ≡ true
      → (p.ex_m.control.mem_to_reg && not (p.ex_m.rd == 0) && p.ex_m.rd == get_rs2 (decoder w))
        ≡ false

-- The instruction at `pc` is decoded, and the one behind it fetched.
pub record Executing (text : Text) (p : Pipeline) (pc : ℕ) : Type 0 where
  pub here : ℕ
  pub behind : ℕ
  pub at_pc : text.words pc ≡ some here
  pub at_next : text.words (next pc) ≡ some behind
  pub issue : Issued p pc here
  pub fetched : p.if_id ≡ fetched_at (next pc) behind
  pub new_pc : p.pc ≡ next (next pc)

-- The instruction at `pc` is fetched, behind a bubble.
pub record Decoding (text : Text) (p : Pipeline) (pc : ℕ) : Type 0 where
  pub here : ℕ
  pub at_pc : text.words pc ≡ some here
  pub bubble : IsBubble p.id_ex
  pub fetched : p.if_id ≡ fetched_at pc here
  pub new_pc : p.pc ≡ next pc

-- The instruction at `pc` is not yet fetched.
pub record Fetching (p : Pipeline) (pc : ℕ) : Type 0 where
  pub bubble : IsBubble p.id_ex
  pub fetched : p.if_id ≡ nop_if_id
  pub new_pc : p.pc ≡ pc

pub data Front (text : Text) (p : Pipeline) (pc : ℕ) : Type 0 where
  executing : Executing text p pc → Front text p pc
  decoding : Decoding text p pc → Front text p pc
  fetching : Fetching p pc → Front text p pc

pub record Represents (text : Text) (p : Pipeline) (pc : ℕ) (rf : RegisterFile) (bus : MemoryBus)
    : Type 0 where
  pub running : IsRunning p
  pub behind : Behind text p rf bus
  pub front : Front text p pc

pub empty-IsBubble : IsBubble empty_id_ex
empty-IsBubble = ground arith

-- The nop instruction becomes a bubble.
pub nop-IsBubble :
    (rf : RegisterFile) (imm : ℤ) (v₁ v₂ : ℕ)
    → IsBubble (record (issued 0 nop_instruction rf imm) { read_data1 = v₁; read_data2 = v₂ })
unfolding get_rd get_opcode to_opcode set_from_instruction signals get_funct3 get_funct7
    op_imm_alu_op
nop-IsBubble rf imm v₁ v₂ = ground arith

idle_result :
    (o : AluOp) (a b : ℕ) → (o ≡ AluOp.nop) ⊎ (o ≡ AluOp.add) → (v : ℕ) × (compute o a b ≡ ok v)
unfolding compute
idle_result o a b (inl e) = (0, rw e refl)
idle_result o a b (inr e) = (u64 (a + b), rw e refl)

pub bubble_executes :
    (i : IdEx) (alu : Alu) (a b : ℕ)
    → IsBubble i
    → (r : Executed × Alu) × (execute_instruction i alu a b ≡ ok r) × (r.0.pc_write_enable ≡ false)
unfolding execute_instruction next_instruction get_result set_a set_b set_op
bubble_executes i alu a b bubble =
    let x = operand_a i.opcode i.pc a in
    let y = operand_b i.control i.immediate b in
    let (v, e) = idle_result i.control.alu_op x y bubble.idle in
    (
      (
        record {
          result = adjust_result i.opcode i.pc i.immediate v;
          pc_write_enable = false;
          next_pc = 0;
        },
        record { a = x; b = y; op = i.control.alu_op },
      ),
      rw (e, bubble.no_jump, bubble.no_branch) refl,
      refl,
    )

pub bubble-Accesses :
    (e : ExM) (bus : MemoryBus)
    → e.control.mem_read ≡ false
    → e.control.mem_write ≡ false
    → Accesses e bus 0 bus
unfolding get_data_out data_clock_pulse
bubble-Accesses e bus no_read no_write = record {
  read_bus = bus;
  reads = rw no_read refl;
  writes = rw no_write refl;
}
