-- ===== src/Pipeline/FiveCycles.antt =====
-- src/pipeline.cc without pipelining: a cycle of each stage against the instruction as a whole.
use ca.Base.{
  length, ℕ, ◌+◌, ◌<◌, ◌≡◌, refl, sym, ap, ◌∙◌, arith, ok, returns, Returns, Returns-and_then,
  Returns-mono, ◌>>◌, u64,
}
use ca.Alu.{Alu, set_a, set_b, set_op}
use ca.Base.Int.{ℤ}
use ca.Decoder.{get_rd}
use ca.Decoder.Fields.{decoder, register_fields}
use ca.RegFile.{RegisterFile}
use ca.RegFile.Laws.{value, IsComplete, written}
use ca.Bus.{MemoryBus}
use ca.Stages.{Pipeline, Step, IdEx}
use ca.Stages.Execute.{execute_instruction}
use ca.Pipeline.OneStage.{
  cycle, IsAt, issued, fetch_cycle, decode_cycle, execute_cycle, access_cycle, write_back_cycle,
}
use ca.Pipeline.Instruction.{
  instruction, idle_alu, written_back, Effects, instruction_inv, execute_word-Effects,
}

-- The ALU's old settings do not matter.
pub execute_instruction-idle :
    (i : IdEx) (alu : Alu) (a b : ℕ)
    → execute_instruction i alu a b ≡ execute_instruction i idle_alu a b
unfolding execute_instruction set_a set_b set_op
execute_instruction-idle i alu a b = refl

-- One cycle of each stage.
abbrev pub five_cycles : Step
five_cycles = cycle >> (cycle >> (cycle >> (cycle >> cycle)))

-- A step of a sequence, from where it stands.
then_cycle :
    (P Q : Pipeline → Type 0) (p : Pipeline) (rest : Step)
    → Returns P (cycle p)
    → ((q : Pipeline) → P q → Returns Q (rest q))
    → Returns Q ((cycle >> rest) p)
then_cycle P Q p rest h next = Returns-and_then P Q (cycle p) _ h (λ _ q. next q)

pub rd_bound : (w : ℕ) → get_rd (decoder w) < 32
rd_bound w = omega (arith, (register_fields w).0)

-- The ports of the register file do not matter either.
pub written_back-registers :
    (i : IdEx) (result loaded : ℕ) (rf rf' : RegisterFile)
    → rf.registers ≡ rf'.registers
    → (written_back i result loaded rf).registers ≡ (written_back i result loaded rf').registers
unfolding written
written_back-registers i result loaded rf rf' e = ground arith

after_execute :
    (p : Pipeline) (pc w pc' : ℕ) (rf rf' : RegisterFile) (bus bus' : MemoryBus)
    → (x : Effects pc w rf bus pc' rf' bus') → IsAt 2 p
    → p.id_ex ≡ issued pc w rf x.imm
    → p.pc ≡ u64 (pc + 4)
    → p.regfile.registers ≡ rf.registers
    → p.bus ≡ bus
    → Returns
        (λ q. IsAt 0 q × (q.pc ≡ pc') × (q.regfile.registers ≡ rf'.registers) × (q.bus ≡ bus'))
        ((cycle >> (cycle >> cycle)) p)
after_execute p pc w pc' rf rf' bus bus' x at e_issued e_pc e_regs e_bus =
    let i = issued pc w rf x.imm in
    let executes : execute_instruction p.id_ex p.execute.alu p.id_ex.read_data1 p.id_ex.read_data2
        ≡ ok x.executed =
      rw e_issued
        (execute_instruction-idle i p.execute.alu i.read_data1 i.read_data2 ∙ x.executes) in
    then_cycle _ _ p _ (execute_cycle p (x.executed.0) (x.executed.1) at executes)
      λ q (at_q, q_ex_m, q_pc, q_regfile, q_bus).
        then_cycle _ _ q _
          (access_cycle q x.loaded x.read_bus bus' at_q
            (rw (q_ex_m, e_issued, q_bus, e_bus) x.reads) (rw (q_ex_m, e_issued) x.writes))
          λ r (at_r, r_m_wb, r_pc, r_regfile, r_bus).
            Returns-mono _ _ (cycle r)
              (write_back_cycle r at_r (rw (r_m_wb, q_ex_m, e_issued) (rd_bound w)))
              λ s (at_s, s_registers, s_pc, s_bus). (
                at_s,
                s_pc ∙ r_pc ∙ q_pc ∙ rw e_pc (sym x.new_pc),
                s_registers
                    ∙ rw (r_m_wb, q_ex_m, e_issued)
                        (written_back-registers i x.executed.0.result x.loaded r.regfile rf
                          (ap (λ f. f.registers) (r_regfile ∙ q_regfile) ∙ e_regs))
                    ∙ ap (λ f. f.registers) (sym x.new_registers),
                s_bus ∙ r_bus,
              )

pub issued-registers :
    (pc w : ℕ) (imm : ℤ) (rf rf' : RegisterFile)
    → rf.registers ≡ rf'.registers
    → issued pc w rf imm ≡ issued pc w rf' imm
unfolding value
issued-registers pc w imm rf rf' e = rw e refl

pub five_cycles_of_registers :
    (p : Pipeline) (rf : RegisterFile) (pc' : ℕ) (rf' : RegisterFile) (bus' : MemoryBus)
    → IsAt 0 p
    → IsComplete rf
    → p.regfile.registers ≡ rf.registers
    → instruction p.pc rf p.bus ≡ returns (pc', rf') bus'
    → Returns
        (λ q. IsAt 0 q × (q.pc ≡ pc') × (q.regfile.registers ≡ rf'.registers) × (q.bus ≡ bus'))
        (five_cycles p)
five_cycles_of_registers p rf pc' rf' bus' at complete same e =
    let (w, b, fetched, unmarked, done) = instruction_inv p.pc pc' rf rf' p.bus bus' e in
    let x = execute_word-Effects p.pc w pc' rf rf' b bus' done in
    then_cycle _ _ p _ (fetch_cycle p w b at fetched unmarked)
      λ q (at_q, q_if_id, q_pc, q_regfile, q_bus).
        then_cycle _ _ q _
          (decode_cycle q x.imm at_q
            (ap (λ f. length f.registers) q_regfile ∙ ap length same ∙ complete)
            (rw q_if_id x.decodes))
          λ r (at_r, r_id_ex, r_pc, r_regfile, r_bus).
            after_execute r p.pc w pc' rf rf' b bus' x at_r
              (r_id_ex ∙ rw (q_if_id, q_regfile) (issued-registers p.pc w x.imm p.regfile rf same))
              (r_pc ∙ q_pc)
              (ap (λ f. f.registers) r_regfile ∙ ap (λ f. f.registers) q_regfile ∙ same)
              (r_bus ∙ q_bus)
