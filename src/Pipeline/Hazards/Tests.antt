-- ===== src/Pipeline/Hazards/Tests.antt =====
-- lw r1, 0x40(r0) with add r2, r1, r1 behind it, and beq r0, r0, 16.
use ca.Base.{ℕ, ◌+◌, ◌≡◌, ◌≢◌, inl, inr, refl, arith, true, false, returns, [], ◌∷◌, u64}
use ca.Base.Int.{ℤ, pos}
use ca.Alu
use ca.Decoder
use ca.Decoder.{InstructionDecoder, get_rd, get_opcode, get_rs1, get_funct3}
use ca.Decoder.Fields.{decoder, register_fields}
use ca.RegFile
use ca.RegFile.Laws.{value}
use ca.Memory
use ca.MemoryControl
use ca.Control
use ca.Control.{set_from_instruction}
use ca.Control.Laws.{set_from_instruction-IsConsistent}
use ca.Bus
use ca.Bus.{MemoryBus, memory}
use ca.Stages.{Pipeline, empty_id_ex, nop_instruction}
use ca.Stages.WellFormed.{IsWellFormed, Carries}
use ca.Stages.Execute
use ca.Stages.Decode.{has_hazard}
use ca.Pipeline
use ca.Pipeline.OneStage.{cycle, issued}
use ca.Pipeline.WellFormed.{initial-IsWellFormed}
use ca.Pipeline.Overlapped.FetchCycle.{IsRunning}
use ca.Pipeline.Hazards.{Reads, stalled_cycle}
use ca.Pipeline.Hazards.Cycle.{Works, IsIssued, source1, source2}
use ca.Pipeline.Transfers.{Transfers, flushed_cycle}

-- A nop at 0x48.
abbrev nop_bus : MemoryBus
nop_bus = record {
  clients =
      memory (record {
        name = "text";
        may_write = false;
        base = 0x48;
        size = 4;
        align = 4;
        bytes = 0x13 ∷ 0x00 ∷ 0x00 ∷ 0x00 ∷ [];
      })
      ∷ [];
  bytes_read = 0;
  bytes_written = 0;
  cerr = [];
}

-- An instruction that is executed, and one that is decoded.
abbrev under_way : ℕ → ℤ → ℕ → Pipeline
under_way x imm w = record (Pipeline.initial true 0x48 RegFile.initial nop_bus) {
  id_ex = issued 0x40 x RegFile.initial imm;
  if_id = record { pc = 0x44; instruction_word = w };
}

under_way-IsWellFormed : (x : ℕ) (imm : ℤ) (w : ℕ) → IsWellFormed (under_way x imm w)
unfolding Pipeline.initial RegFile.initial Carries
under_way-IsWellFormed x imm w =
    let start = initial-IsWellFormed true 0x48 RegFile.initial nop_bus refl (omega arith) in
    let (rd, rs1, rs2) = register_fields x in
    record {
      complete = start.complete;
      ports = start.ports;
      decoded = start.decoded;
      id_ex = (omega arith, set_from_instruction-IsConsistent (decoder x));
      sources = omega arith;
      execute = start.execute;
      ex_m = start.ex_m;
      access = start.access;
      m_wb = start.m_wb;
    }

under_way-IsRunning : (x : ℕ) (imm : ℤ) (w : ℕ) → IsRunning (under_way x imm w)
unfolding Pipeline.initial
under_way-IsRunning x imm w = (refl, refl)

under_way-IsIssued : (x : ℕ) (imm : ℤ) (w : ℕ) → IsIssued x (under_way x imm w).id_ex
under_way-IsIssued x imm w = record { opcode = refl; funct3 = refl; rd = refl; control = refl }

abbrev loading : Pipeline
loading = under_way 0x04002083 (pos 64) 0x00108133

abbrev branching : Pipeline
branching = under_way 0x00000863 (pos 16) 0x13

both_work : Works loading × Works branching
unfolding Pipeline.initial value Bus.read Bus.find_client Bus.client_contains Bus.client_read
    Memory.contains Memory.can_access Memory.read_data Memory.Bytes.load MemoryControl.get_data_out
    MemoryControl.data_clock_pulse Execute.execute_instruction Execute.next_instruction
    Execute.forward Execute.ex_stage_can_forward Execute.operand_a Execute.operand_b
    Execute.adjust_result Execute.evaluate_branch Execute.compute_pc_relative_target Alu.set_a
    Alu.set_b Alu.set_op Alu.compute Alu.get_result Decoder.to_opcode Decoder.get_opcode
    Decoder.get_rs1 Decoder.get_rs2 Decoder.get_rd Decoder.get_funct3 Decoder.get_funct7
    Decoder.type_of_opcode Decoder.get_instruction_type Decoder.sign_extend Decoder.get_immediate_i
    Decoder.immediate_of_type Decoder.get_immediate Control.signals Control.set_from_instruction
    Control.load_size RegFile.initial
both_work = (
  record {
    fetched_word = 0x13;
    bus = _;
    imm = _;
    executed = _;
    loaded = 0;
    accessed_bus = _;
    fetched = refl;
    unmarked = refl;
    decodes = refl;
    executes = refl;
    accesses = record { read_bus = _; reads = refl; writes = refl };
  },
  record {
    fetched_word = 0x13;
    bus = _;
    imm = _;
    executed = _;
    loaded = 0;
    accessed_bus = _;
    fetched = refl;
    unmarked = refl;
    decodes = refl;
    executes = refl;
    accesses = record { read_bus = _; reads = refl; writes = refl };
  },
)

is_load : get_opcode (decoder 0x04002083) ≡ Decoder.load
unfolding get_opcode Decoder.to_opcode
is_load = refl

into_one : get_rd (decoder 0x04002083) ≢ 0
unfolding get_rd
into_one e = omega arith

Reads-one : Reads 0x00108133 (get_rd (decoder 0x04002083))
unfolding get_rd get_rs1
Reads-one = inl refl

leads_away : Transfers 0x00000863 (source1 branching) (source2 branching)
unfolding Pipeline.initial get_opcode Decoder.to_opcode get_funct3 value Execute.forward
    Execute.ex_stage_can_forward get_rs1 Decoder.get_rs2
leads_away = inr (refl, inl (refl, refl))

stalled_cycle_example :
    (q : Pipeline) × (cycle loading ≡ returns tt q)
    × (q.pc ≡ loading.pc)
    × (q.if_id ≡ loading.if_id)
    × (q.id_ex ≡ empty_id_ex)
    × (q.ex_m.rd ≡ get_rd (decoder 0x04002083))
    × (q.ex_m.control ≡ set_from_instruction (decoder 0x04002083))
    × (q.n_stalls ≡ u64 (loading.n_stalls + 1))
    × (q.n_instr_issued ≡ loading.n_instr_issued)
    × ((d : InstructionDecoder) → has_hazard q.id_ex d ≡ false)
stalled_cycle_example =
    stalled_cycle loading 0x04002083 (under_way-IsWellFormed 0x04002083 (pos 64) 0x00108133)
      (under_way-IsRunning 0x04002083 (pos 64) 0x00108133) both_work.0
      (under_way-IsIssued 0x04002083 (pos 64) 0x00108133) is_load into_one Reads-one

flushed_cycle_example :
    (q : Pipeline) × (cycle branching ≡ returns tt q)
    × (q.pc ≡ 0x50)
    × (q.if_id ≡ record { pc = 0; instruction_word = nop_instruction })
    × (q.id_ex ≡ empty_id_ex)
    × (q.n_instr_issued ≡ branching.n_instr_issued)
    × (q.n_stalls ≡ branching.n_stalls)
flushed_cycle_example =
    flushed_cycle branching 0x00000863 (under_way-IsWellFormed 0x00000863 (pos 16) 0x13)
      (under_way-IsRunning 0x00000863 (pos 16) 0x13) both_work.1
      (under_way-IsIssued 0x00000863 (pos 16) 0x13) leads_away
