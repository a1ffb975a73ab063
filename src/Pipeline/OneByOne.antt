-- ===== src/Pipeline/OneByOne.antt =====
-- src/pipeline.cc without pipelining: a whole program up to its end marker.
use ca.Base.{
  length, ℕ, zero, suc, ◌+◌, ◌*◌, ◌≡◌, refl, sym, ap, subst, ◌∙◌, arith, false, true, ok, Outcome,
  returns, throws, Returns, ◌>>◌, ◌==◌, test_end_marker_encountered, if_true, some, get_elem?, u64,
}
use ca.Base
use ca.Memory.{word}
use ca.MemoryControl.{set_instruction_size, set_instruction_address, get_value}
use ca.RegFile.{RegisterFile}
use ca.RegFile.Laws.{IsComplete}
use ca.Bus
use ca.Bus.{MemoryBus}
use ca.Stages.{Pipeline}
use ca.Stages.Fetch
use ca.Stages.Fetch.{test_end_marker}
use ca.Stages.Execute.{execute_instruction}
use ca.Pipeline
use ca.Pipeline.OneStage.{
  cycle, IsAt, issued, fetch_cycle, decode_cycle, execute_cycle, access_cycle, write_back_cycle,
}
use ca.Pipeline.Instruction.{instruction, Effects, instruction_inv, execute_word-Effects}
use ca.Pipeline.FiveCycles.{
  rd_bound, written_back-registers, issued-registers, execute_instruction-idle,
}
use ca.Pipeline.Program.{instruction-IsComplete}
use ca.Pipeline.SameMemory.{read-SameMemory}
use ca.Pipeline.Text.{Text, Holds, next, Holds-SameMemory}
use ca.Pipeline.Ends.{EndsWithin, EndsWithin-le, goes_on, ends_now, EndsTest, Final}
use ca.Pipeline.Completes.{Completes, Completes-Holds, at_stop, last_one, last_two, step}

-- A call that returns, with the state to which it does.
returned :
    (P : Pipeline → Type 0) (o : Outcome Pipeline (Unit {0}))
    → Returns P o
    → (q : Pipeline) × (o ≡ returns tt q) × P q
returned P (returns u q) h = (q, refl, h)
returned P (throws e q) h = absurd h
returned P Base.Outcome.undefined h = absurd h

module _ (text : Text) (rf_end : RegisterFile) (bus_end : MemoryBus) where
  -- A cycle in front of others.
  one_more :
      (k : ℕ) (p : Pipeline) (P : Pipeline → Type 0)
      → Holds text p.bus
      → Returns P (cycle p)
      → ((q : Pipeline) → P q → EndsWithin text rf_end bus_end k q)
      → EndsWithin text rf_end bus_end (suc k) p
  one_more k p P holds h rest =
      let (q, e, hq) = returned P (cycle p) h in goes_on k p q (holds.2) e (rest q hq)

  module _ (k : ℕ) (pc' : ℕ) (rf rf' : RegisterFile) (bus bus' : MemoryBus)
      (complete : IsComplete rf) (holds : Holds text bus) (holds' : Holds text bus')
      (rest : (q : Pipeline)
        → IsAt 0 q
        → (q.pc ≡ pc') × (q.regfile.registers ≡ rf'.registers) × (q.bus ≡ bus')
        → EndsWithin text rf_end bus_end k q) where
    executed :
        (p : Pipeline) (pc w : ℕ) (b : MemoryBus) (x : Effects pc w rf b pc' rf' bus')
        → Holds text b
        → IsAt 2 p
        → p.id_ex ≡ issued pc w rf x.imm
        → p.pc ≡ u64 (pc + 4)
        → p.regfile.registers ≡ rf.registers
        → p.bus ≡ b
        → EndsWithin text rf_end bus_end (suc (suc (suc k))) p
    executed p pc w b x holds_b at e_issued e_pc e_regs e_bus =
        let i = issued pc w rf x.imm in
        let executes : execute_instruction p.id_ex p.execute.alu p.id_ex.read_data1
              p.id_ex.read_data2
            ≡ ok x.executed =
          rw e_issued
            (execute_instruction-idle i p.execute.alu i.read_data1 i.read_data2 ∙ x.executes) in
        one_more _ p _ (subst (Holds text) (sym e_bus) holds_b)
          (execute_cycle p (x.executed.0) (x.executed.1) at executes)
          λ q (at_q, q_ex_m, q_pc, q_regfile, q_bus).
            one_more _ q _ (subst (Holds text) (sym (q_bus ∙ e_bus)) holds_b)
              (access_cycle q x.loaded x.read_bus bus' at_q
                (rw (q_ex_m, e_issued, q_bus, e_bus) x.reads) (rw (q_ex_m, e_issued) x.writes))
              λ r (at_r, r_m_wb, r_pc, r_regfile, r_bus).
                one_more _ r _ (subst (Holds text) (sym r_bus) holds')
                  (write_back_cycle r at_r (rw (r_m_wb, q_ex_m, e_issued) (rd_bound w)))
                  λ s (at_s, s_registers, s_pc, s_bus). rest s at_s (
                    s_pc ∙ r_pc ∙ q_pc ∙ rw e_pc (sym x.new_pc),
                    s_registers
                        ∙ rw (r_m_wb, q_ex_m, e_issued)
                            (written_back-registers i x.executed.0.result x.loaded r.regfile rf
                              (ap (λ f. f.registers) (r_regfile ∙ q_regfile) ∙ e_regs))
                        ∙ ap (λ f. f.registers) (sym x.new_registers),
                    s_bus ∙ r_bus,
                  )

    -- Five cycles for an instruction, and the rest.
    five_more :
        (p : Pipeline)
        → IsAt 0 p
        → (p.regfile.registers ≡ rf.registers) × (p.bus ≡ bus)
        → instruction p.pc rf p.bus ≡ returns (pc', rf') bus'
        → EndsWithin text rf_end bus_end (suc (suc (suc (suc (suc k))))) p
    five_more p at (same, same_bus) e =
        let (w, b, fetched, unmarked, done) = instruction_inv p.pc pc' rf rf' p.bus bus' e in
        let x = execute_word-Effects p.pc w pc' rf rf' b bus' done in
        let holds_p = subst (Holds text) (sym same_bus) holds in
        let holds_b =
          Holds-SameMemory text p.bus b (read-SameMemory word p.pc w p.bus b fetched) holds_p in
        one_more _ p _ holds_p (fetch_cycle p w b at fetched unmarked)
          λ q (at_q, q_if_id, q_pc, q_regfile, q_bus).
            one_more _ q _ (subst (Holds text) (sym q_bus) holds_b)
              (decode_cycle q x.imm at_q
                (ap (λ f. length f.registers) q_regfile ∙ ap length same ∙ complete)
                (rw q_if_id x.decodes))
              λ r (at_r, r_id_ex, r_pc, r_regfile, r_bus).
                executed r p.pc w b x holds_b at_r
                  (r_id_ex
                    ∙ rw (q_if_id, q_regfile) (issued-registers p.pc w x.imm p.regfile rf same))
                  (r_pc ∙ q_pc)
                  (ap (λ f. f.registers) r_regfile ∙ ap (λ f. f.registers) q_regfile ∙ same)
                  (r_bus ∙ q_bus)

-- The end marker ends the test as it is fetched.
marker_cycle :
    (p : Pipeline) (b : MemoryBus)
    → IsAt 0 p
    → Bus.read word p.pc p.bus ≡ returns test_end_marker b
    → EndsTest (λ q. (q.regfile.registers ≡ p.regfile.registers) × (q.bus ≡ b)) (cycle p)
unfolding Pipeline.propagate Pipeline.clock_pulse Pipeline.stage_propagate
    Pipeline.stage_clock_pulse Fetch.propagate Fetch.fetch_word Fetch.accept_word Fetch.on_exception
    set_instruction_size set_instruction_address get_value
marker_cycle p b at fetched = ground arith

EndsTest-mono :
    (P Q : Pipeline → Type 0) (o : Outcome Pipeline (Unit {0}))
    → ((q : Pipeline) → P q → Q q)
    → EndsTest P o
    → EndsTest Q o
EndsTest-mono P Q (throws (test_end_marker_encountered a) q) mono h = mono q h
EndsTest-mono P Q _ mono h = absurd h

-- The state between two instructions.
abbrev Between : Pipeline → ℕ → RegisterFile → MemoryBus → Type 0
Between p pc rf bus = IsAt 0 p × (p.pc ≡ pc) × (p.regfile.registers ≡ rf.registers) × (p.bus ≡ bus)

module _ (text : Text) where
  stop_ends :
      (p : Pipeline) (pc : ℕ) (rf : RegisterFile) (bus : MemoryBus)
      → Between p pc rf bus
      → pc ≡ text.stop
      → Holds text bus
      → EndsWithin text rf bus 1 p
  stop_ends p pc rf bus (at, at_pc, registers, same_bus) stops holds =
      let holds_p : Holds text p.bus = subst (Holds text) (sym same_bus) holds in
      let b = holds_p.1.0 in
      let read : Bus.read word p.pc p.bus ≡ returns test_end_marker b =
        ap (λ a. Bus.read word a p.bus) (at_pc ∙ stops) ∙ holds_p.1.1 in
      let (clients, cerr) = read-SameMemory word p.pc test_end_marker p.bus b read in
      ends_now 0 p (holds_p.2) (
        EndsTest-mono _ (Final rf bus) (cycle p)
          (λ q (same, new_bus). (
            same ∙ registers,
            (
              ap (λ c. c.clients) new_bus ∙ sym clients ∙ ap (λ c. c.clients) same_bus,
              ap (λ c. c.cerr) new_bus ∙ sym cerr ∙ ap (λ c. c.cerr) same_bus,
            ),
          ))
          (marker_cycle p b at read))

  -- An instruction, and what follows within `k` cycles.
  one_instruction :
      (k : ℕ) (p : Pipeline) (pc pc' : ℕ) (rf rf' rf_end : RegisterFile)
      (bus bus' bus_end : MemoryBus)
      → IsComplete rf
      → Between p pc rf bus
      → Holds text bus
      → Holds text bus'
      → instruction pc rf bus ≡ returns (pc', rf') bus'
      → ((q : Pipeline)
          → IsComplete rf'
          → Between q pc' rf' bus'
          → EndsWithin text rf_end bus_end k q)
      → EndsWithin text rf_end bus_end (suc (suc (suc (suc (suc k))))) p
  one_instruction k p pc pc' rf rf' rf_end bus bus' bus_end complete
        (at, at_pc, registers, same_bus) holds holds' e rest =
      let here : instruction p.pc rf p.bus ≡ returns (pc', rf') bus' = rw (at_pc, same_bus) e in
      five_more text rf_end bus_end k pc' rf rf' bus bus' complete holds holds'
        (λ q at_q (q_pc, q_registers, q_bus).
          rest q (instruction-IsComplete pc pc' rf rf' bus bus' complete e)
            (at_q, q_pc, q_registers, q_bus))
        p at (registers, same_bus) here

  pub ends_one_by_one :
      (n pc : ℕ) (p : Pipeline) (rf rf' : RegisterFile) (bus bus' : MemoryBus)
      → IsComplete rf
      → Completes text n pc rf bus rf' bus'
      → Between p pc rf bus
      → EndsWithin text rf' bus' (5 * n + 1) p
  ends_one_by_one zero pc p rf rf' bus bus' complete (at_stop _ _ _ stops holds) between =
      stop_ends p pc rf bus between stops holds
  ends_one_by_one (suc n) pc p rf rf' bus bus' complete
        (last_one _ w _ _ _ _ at_pc stops holds e holds') between =
      EndsWithin-le text rf' bus' 6 (5 * 1 + 1) p (omega arith) (
        one_instruction 1 p pc text.stop rf rf' rf' bus bus' bus' complete between holds holds' e
          (λ q _ between'. stop_ends q text.stop rf' bus' between' refl holds'))
  ends_one_by_one n pc p rf rf' bus bus' complete
        (last_two _ w w' _ rf₁ _ _ bus₁ _ at_pc at_next stops no_jump no_wait holds e holds₁ e'
          holds')
        between =
      EndsWithin-le text rf' bus' 11 (5 * 2 + 1) p (omega arith) (
        one_instruction 6 p pc (next pc) rf rf₁ rf' bus bus₁ bus' complete between holds holds₁ e
          (λ q complete₁ between₁.
            one_instruction 1 q (next pc) text.stop rf₁ rf' rf' bus₁ bus' bus' complete₁ between₁
              holds₁ holds' e'
              (λ r _ between'. stop_ends r text.stop rf' bus' between' refl holds')))
  ends_one_by_one (suc n) pc p rf rf' bus bus' complete
        (step _ _ pc₁ _ rf₁ _ _ bus₁ _ covers holds e rest) between =
      EndsWithin-le text rf' bus' (suc (suc (suc (suc (suc (5 * n + 1)))))) (5 * suc n + 1) p
        (omega arith)
        (one_instruction (5 * n + 1) p pc pc₁ rf rf₁ rf' bus bus₁ bus' complete between holds
          (Completes-Holds text n pc₁ rf₁ rf' bus₁ bus' rest) e
          (λ q complete₁ between₁.
            ends_one_by_one n pc₁ q rf₁ rf' bus₁ bus' complete₁ rest between₁))

  pub initial_ends_one_by_one :
      (n pc : ℕ) (rf rf' : RegisterFile) (bus bus' : MemoryBus)
      → IsComplete rf
      → Completes text n pc rf bus rf' bus'
      → EndsWithin text rf' bus' (5 * n + 1) (Pipeline.initial false pc rf bus)
  unfolding Pipeline.initial
  initial_ends_one_by_one n pc rf rf' bus bus' complete run =
      ends_one_by_one n pc (Pipeline.initial false pc rf bus) rf rf' bus bus' complete run
        ((refl, refl, refl), refl, refl, refl)
