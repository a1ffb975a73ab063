-- ===== src/Pipeline/Hazards/Cycle.antt =====
-- A cycle of the pipelined mode that meets no error and no end marker, with a stall or a transfer.
use ca.Base.{ℕ, ◌+◌, ◌≡◌, refl, true, false, ok, returns, ◌==◌, u64}
use ca.Base.Int.{ℤ}
use ca.Alu.{Alu}
use ca.Memory.{word}
use ca.Decoder.{get_opcode, get_rd, get_funct3, get_immediate}
use ca.Decoder.Fields.{decoder}
use ca.Control.{set_from_instruction}
use ca.Bus
use ca.Bus.{MemoryBus}
use ca.Stages.{Pipeline, IdEx, empty_id_ex, nop_instruction}
use ca.Stages.WellFormed.{IsWellFormed, Carries-bound}
use ca.Stages.Fetch.{test_end_marker}
use ca.Stages.Decode.{has_hazard}
use ca.Stages.Execute.{Executed, execute_instruction, forward}
use ca.Pipeline.OneStage.{cycle}
use ca.Pipeline.Overlapped.FetchCycle.{IsRunning}
use ca.Pipeline.Overlapped.Fetched.{word_done, word-Goes}
use ca.Pipeline.Overlapped.Whole.{Succeeds, clocked, cycle_lem}
use ca.Pipeline.Overlapped.After.{stalled_after, taken_after}
use ca.Pipeline.Overlapped.Represents.{Accesses}

-- The values that the instruction in the execute stage works on.
abbrev pub source1 : Pipeline → ℕ
source1 p = forward p.ex_m p.m_wb p.id_ex.rs1 p.id_ex.read_data1

abbrev pub source2 : Pipeline → ℕ
source2 p = forward p.ex_m p.m_wb p.id_ex.rs2 p.id_ex.read_data2

-- Memory has a word at the PC, no end marker, and the decoded, the executed and the accessing
-- instruction meet no error.
pub record Works (p : Pipeline) : Type 0 where
  pub fetched_word : ℕ
  pub bus : MemoryBus
  pub imm : ℤ
  pub executed : Executed × Alu
  pub loaded : ℕ
  pub accessed_bus : MemoryBus
  pub fetched : Bus.read word p.pc p.bus ≡ returns fetched_word bus
  pub unmarked : (fetched_word == test_end_marker) ≡ false
  pub decodes : get_immediate (decoder p.if_id.instruction_word) ≡ ok imm
  pub executes : execute_instruction p.id_ex p.execute.alu (source1 p) (source2 p) ≡ ok executed
  pub accesses : Accesses p.ex_m bus loaded accessed_bus

-- The instruction word that was decoded into the register of the execute stage.
pub record IsIssued (w : ℕ) (i : IdEx) : Type 0 where
  pub opcode : i.opcode ≡ get_opcode (decoder w)
  pub funct3 : i.funct3 ≡ get_funct3 (decoder w)
  pub rd : i.rd ≡ get_rd (decoder w)
  pub control : i.control ≡ set_from_instruction (decoder w)

-- The state after the cycle.
pub succeeds : (p : Pipeline) → IsWellFormed p → IsRunning p → Works p → Succeeds p
unfolding word_done
succeeds p well running s = record {
  fetch = word_done p s.fetched_word s.bus running s.fetched s.unmarked;
  imm = s.imm;
  executed = s.executed;
  loaded = s.loaded;
  read_bus = s.accesses.read_bus;
  written_bus = s.accessed_bus;
  pipelined = running.0;
  complete = well.complete;
  decodes = s.decodes;
  executes = s.executes;
  reads = s.accesses.reads;
  writes = s.accesses.writes;
  rd_bound = Carries-bound p.m_wb.rd p.m_wb.control well.m_wb;
}

module _ (p : Pipeline) (well : IsWellFormed p) (running : IsRunning p) (s : Works p) where
  abbrev pub after : Pipeline
  after = clocked p (succeeds p well running s)

  pub cycle_after : cycle p ≡ returns tt after
  unfolding succeeds word_done
  cycle_after = cycle_lem p (succeeds p well running s) (
      word-Goes p (succeeds p well running s) s.fetched_word s.bus running s.fetched s.unmarked
        refl)

  -- What a cycle with a stall and one with a transfer leave, besides the registers between stages.
  pub stall_counted :
      s.executed.0.pc_write_enable ≡ false
      → has_hazard p.id_ex (decoder p.if_id.instruction_word) ≡ true
      → (after.n_stalls ≡ u64 (p.n_stalls + 1))
        × (after.n_instr_issued ≡ p.n_instr_issued)
        × (after.ex_m.rd ≡ p.id_ex.rd)
        × (after.ex_m.control ≡ p.id_ex.control)
  unfolding succeeds word_done
  stall_counted e h = rw (e, h) (refl, refl, refl, refl)

  pub transfer_counted :
      s.executed.0.pc_write_enable ≡ true
      → (after.n_stalls ≡ p.n_stalls) × (after.n_instr_issued ≡ p.n_instr_issued)
  unfolding succeeds word_done
  transfer_counted e = rw e (refl, refl)

  pub held_back :
      s.executed.0.pc_write_enable ≡ false
      → has_hazard p.id_ex (decoder p.if_id.instruction_word) ≡ true
      → (after.id_ex ≡ empty_id_ex) × (after.if_id ≡ p.if_id) × (after.pc ≡ p.pc)
  unfolding succeeds word_done
  held_back e h = stalled_after p (succeeds p well running s) e refl h

  pub discarded :
      s.executed.0.pc_write_enable ≡ true
      → (after.id_ex ≡ empty_id_ex)
        × (after.if_id ≡ record { pc = 0; instruction_word = nop_instruction })
        × (after.pc ≡ s.executed.0.next_pc)
  unfolding succeeds
  discarded e = taken_after p (succeeds p well running s) e
