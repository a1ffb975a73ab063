-- ===== src/Pipeline/Overlapped/Executes.antt =====
-- The cycle in which an instruction is executed: the pipeline then stands for the state behind it.
use ca.Base.{ℕ, ◌<◌, ◌≡◌, sym, ap, subst, ◌∙◌, arith, true, ok, ok-inj, if◌then◌else◌}
use ca.Base.Int.{ℤ}
use ca.Decoder.{get_rs1, get_rs2, get_rd, get_opcode, get_immediate}
use ca.Decoder.Fields.{decoder, register_fields}
use ca.RegFile.{RegisterFile}
use ca.RegFile.Laws.{value}
use ca.Bus.{MemoryBus}
use ca.Control.{set_from_instruction}
use ca.Stages.{Pipeline, ExM}
use ca.Stages.Decode.{instruction_uses_rs2}
use ca.Stages.Execute.{execute_instruction, forward}
use ca.Stages.Forwarding.{commit_write_back}
use ca.Pipeline.OneStage.{issued}
use ca.Pipeline.Instruction.{Effects, idle_alu}
use ca.Pipeline.Overlapped.Whole.{FetchDone, Succeeds, clocked}
use ca.Pipeline.SameMemory.{SameMemory, SameMemory-trans, SameMemory-sym}
use ca.Pipeline.Text.{Text, Holds, Holds-SameMemory, next}
use ca.Pipeline.Overlapped.Operands.{
  passed, committed, value-registers, forward-eq-value, execute_issued, port_issued, port_read,
}
use ca.Pipeline.Overlapped.Represents.{Accesses, Behind, Issued}
use ca.Pipeline.Overlapped.Steps.{Ready, ready, Behind-after, Accesses-SameMemory}

-- The instruction `w` at `pc` after its execution.
abbrev finished : ℕ → ℕ → ℕ → ℕ → ExM
finished pc w result v = record {
  pc = pc;
  alu_result = result;
  write_data = v;
  rd = get_rd (decoder w);
  control = set_from_instruction (decoder w);
}

module _ (text : Text) (p : Pipeline) (rf : RegisterFile) (bus : MemoryBus)
    (pipelined : p.pipelining ≡ true) (behind : Behind text p rf bus) (holds : Holds text bus)
    (pc w : ℕ) (issue : Issued p pc w) where
  -- The values that are forwarded are those of the state that the pipeline stands for.
  rs1_forwarded :
      forward p.ex_m p.m_wb p.id_ex.rs1 p.id_ex.read_data1 ≡ value rf (get_rs1 (decoder w))
  rs1_forwarded =
      let rs = get_rs1 (decoder w) in
      ap (λ i. forward p.ex_m p.m_wb i.rs1 i.read_data1) issue.in_execute
      ∙ forward-eq-value p.ex_m p.m_wb p.regfile rs behind.loaded behind.complete behind.bounds.1
          behind.bounds.0 issue.rs1_not_loaded
      ∙ value-registers (committed p.ex_m behind.loaded p.m_wb p.regfile) rf rs behind.registers

  rs2_forwarded :
      instruction_uses_rs2 (get_opcode (decoder w)) ≡ true
      → forward p.ex_m p.m_wb p.id_ex.rs2 p.id_ex.read_data2 ≡ value rf (get_rs2 (decoder w))
  rs2_forwarded used =
      let rs = get_rs2 (decoder w) in
      ap (λ i. forward p.ex_m p.m_wb i.rs2 i.read_data2) issue.in_execute
      ∙ ap (forward p.ex_m p.m_wb rs) (issue.rs2_read used)
      ∙ forward-eq-value p.ex_m p.m_wb p.regfile rs behind.loaded behind.complete behind.bounds.1
          behind.bounds.0 (issue.rs2_not_loaded used)
      ∙ value-registers (committed p.ex_m behind.loaded p.m_wb p.regfile) rf rs behind.registers

  module _ (pc' : ℕ) (rf' : RegisterFile) (b bus' : MemoryBus) (same_bus : SameMemory b bus)
      (x : Effects pc w rf b pc' rf' bus') where
    abbrev second : ℕ
    second = forward p.ex_m p.m_wb p.id_ex.rs2 p.id_ex.read_data2

    imm_lem : issue.imm ≡ x.imm
    imm_lem = ok-inj (sym issue.decodes ∙ x.decodes)

    executes_lem :
        execute_instruction p.id_ex p.execute.alu
          (forward p.ex_m p.m_wb p.id_ex.rs1 p.id_ex.read_data1)
          second
        ≡ ok x.executed
    executes_lem =
        ap
          (λ i.
            execute_instruction i p.execute.alu
              (forward p.ex_m p.m_wb p.id_ex.rs1 p.id_ex.read_data1) second)
          issue.in_execute
        ∙ ap
            (λ a.
              execute_instruction
                (record (issued pc w p.regfile issue.imm) { read_data2 = issue.rs2_value })
                p.execute.alu a second)
            rs1_forwarded
        ∙ execute_issued pc w issue.imm p.regfile rf p.execute.alu idle_alu _ issue.rs2_value _
            second (value rf (get_rs2 (decoder w))) issue.decodes rs2_forwarded
        ∙ ap
            (λ imm.
              execute_instruction (issued pc w rf imm) idle_alu (value rf (get_rs1 (decoder w)))
                (value rf (get_rs2 (decoder w))))
            imm_lem
        ∙ x.executes

    access_lem : Accesses (finished pc w x.executed.0.result second) b x.loaded bus'
    access_lem = record {
      read_bus = x.read_bus;
      reads =
          port_read _ (set_from_instruction (decoder w)) x.executed.0.result second _ b ∙ x.reads;
      writes =
          port_issued w x.executed.0.result second (value rf (get_rs2 (decoder w))) x.read_bus
            rs2_forwarded
          ∙ x.writes;
    }

    -- The cycle succeeds, whatever is fetched, and leaves the state behind the instruction.
    pub record Done (fetch : FetchDone p) (imm : ℤ) : Type 0 where
      pub succeeds : Succeeds p
      pub same_fetch : succeeds.fetch ≡ fetch
      pub same_imm : succeeds.imm ≡ imm
      pub transfer :
          pc'
          ≡ (if succeeds.executed.0.pc_write_enable then succeeds.executed.0.next_pc else next pc)
      pub behind_lem : Behind text (clocked p succeeds) rf' bus'

    pub done :
        (fetch : FetchDone p) (imm : ℤ)
        → SameMemory p.bus fetch.bus
        → get_immediate (decoder p.if_id.instruction_word) ≡ ok imm
        → Done fetch imm
    done fetch imm same decodes =
        let here : Ready text p rf bus pipelined behind fetch imm x.executed =
          ready text p rf bus pipelined behind fetch imm x.executed same decodes executes_lem in
        let s = here.succeeds in
        let ex_m_lem : (clocked p s).ex_m ≡ finished pc w x.executed.0.result second =
          ap
            (λ i. record (finished i.pc w s.executed.0.result second) {
              rd = i.rd;
              control = i.control;
            })
            issue.in_execute
          ∙ ap (λ r. finished pc w r.0.result second) here.same_result in
        let same_b =
          SameMemory-trans b bus s.written_bus same_bus
            (SameMemory-sym s.written_bus bus here.same_bus) in
        let (c, accesses, same_c) =
          Accesses-SameMemory (finished pc w x.executed.0.result second) b s.written_bus x.loaded
            bus' same_b access_lem in
        record {
          succeeds = s;
          same_fetch = here.same_fetch;
          same_imm = here.same_imm;
          transfer =
              x.new_pc
              ∙ ap (λ r. if r.0.pc_write_enable then r.0.next_pc else next pc)
                  (sym here.same_result);
          behind_lem =
              Behind-after text p rf bus pipelined behind s x.loaded c rf' bus' here.same_loaded
                (Holds-SameMemory text bus s.written_bus
                  (SameMemory-sym s.written_bus bus here.same_bus) holds)
                (subst (λ i. i.rd < 32) (sym issue.in_execute)
                  (omega (arith, (register_fields w).0)))
                (subst (λ e. Accesses e s.written_bus x.loaded c) (sym ex_m_lem) accesses)
                (SameMemory-sym bus' c same_c)
                (ap (λ e. (commit_write_back (passed e x.loaded) rf).registers) ex_m_lem
                  ∙ ap (λ f. f.registers) (sym x.new_registers));
        }
