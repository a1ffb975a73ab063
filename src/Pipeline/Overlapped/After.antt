-- ===== src/Pipeline/Overlapped/After.antt =====
-- The registers between the stages that a cycle leaves.
use ca.Base.{◌+◌, ◌≡◌, refl, arith, true, false, u64}
use ca.Decoder.{get_opcode, get_rs1, get_rs2}
use ca.Decoder.Fields.{decoder}
use ca.RegFile.Laws.{written}
use ca.Stages.{Pipeline, empty_id_ex, nop_instruction}
use ca.Stages.Decode.{bypass, has_hazard, instruction_uses_rs2}
use ca.Stages.Forwarding.{commit_write_back}
use ca.Pipeline.OneStage.{issued}
use ca.Pipeline.Overlapped.Whole.{Succeeds, clocked, read1, read2}

module _ (p : Pipeline) (s : Succeeds p) where
  pub registers_after :
      (clocked p s).regfile.registers ≡ (commit_write_back p.m_wb p.regfile).registers
  unfolding written
  registers_after = ground arith

  -- A transfer: what was fetched and decoded behind it is discarded.
  pub taken_after :
      s.executed.0.pc_write_enable ≡ true
      → ((clocked p s).id_ex ≡ empty_id_ex)
        × ((clocked p s).if_id ≡ record { pc = 0; instruction_word = nop_instruction })
        × ((clocked p s).pc ≡ s.executed.0.next_pc)
  taken_after e = rw e (refl, refl, refl)

  -- A stall: the instruction behind a load waits.
  pub stalled_after :
      s.executed.0.pc_write_enable ≡ false
      → s.fetch.flush ≡ false
      → has_hazard p.id_ex (decoder p.if_id.instruction_word) ≡ true
      → ((clocked p s).id_ex ≡ empty_id_ex)
        × ((clocked p s).if_id ≡ p.if_id)
        × ((clocked p s).pc ≡ p.pc)
  stalled_after e f h = rw (e, f, h) (refl, refl, refl)

  -- Otherwise the decoded instruction moves on.
  pub moved_after :
      s.executed.0.pc_write_enable ≡ false
      → has_hazard p.id_ex (decoder p.if_id.instruction_word) ≡ false
      → (clocked p s).id_ex ≡ record (issued p.if_id.pc p.if_id.instruction_word p.regfile s.imm) {
        read_data1 = bypass p.m_wb (get_rs1 (decoder p.if_id.instruction_word)) true (read1 p);
        read_data2 =
            bypass p.m_wb
              (get_rs2 (decoder p.if_id.instruction_word))
              (instruction_uses_rs2 (get_opcode (decoder p.if_id.instruction_word)))
              (read2 p);
      }
  moved_after e h = rw (e, h) refl

  -- And so does the fetched one.
  pub fetched_after :
      s.executed.0.pc_write_enable ≡ false
      → s.fetch.flush ≡ false
      → has_hazard p.id_ex (decoder p.if_id.instruction_word) ≡ false
      → s.fetch.after.end_marker_seen ≡ false
      → ((clocked p s).if_id ≡ record {
        pc = s.fetch.after.fetch_pc;
        instruction_word = s.fetch.after.fetched_instruction;
      })
        × ((clocked p s).pc ≡ u64 (p.pc + 4))
  fetched_after e f h seen = rw (e, f, h, seen) (refl, refl)

  -- Where the end marker is fetched, nothing is left to decode, not even an instruction that waits
  -- for a load.
  pub marked_after :
      s.executed.0.pc_write_enable ≡ false
      → s.fetch.flush ≡ true
      → ((clocked p s).if_id ≡ record { pc = 0; instruction_word = nop_instruction })
        × ((clocked p s).pc ≡ p.pc)
  marked_after e f = ground arith

  pub dropped_after :
      s.executed.0.pc_write_enable ≡ false
      → has_hazard p.id_ex (decoder p.if_id.instruction_word) ≡ true
      → (clocked p s).id_ex ≡ empty_id_ex
  dropped_after e h = ground arith

  -- Nothing is fetched any more.
  pub drained_after :
      s.executed.0.pc_write_enable ≡ false
      → s.fetch.flush ≡ false
      → s.fetch.after.end_marker_seen ≡ true
      → ((clocked p s).if_id ≡ p.if_id) × ((clocked p s).pc ≡ p.pc)
  drained_after e f seen = ground arith
