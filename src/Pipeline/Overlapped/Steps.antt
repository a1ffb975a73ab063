-- ===== src/Pipeline/Overlapped/Steps.antt =====
-- One cycle of the pipelined mode from a state that stands for one between two instructions.
use ca.Base.{ℕ, ◌<◌, ◌≡◌, refl, sym, ap, ◌∙◌, arith, length, true, false, not, ◌&&◌, ok, ◌==◌}
use ca.Base.Int.{ℤ}
use ca.Alu.{Alu}
use ca.Decoder.{InstructionDecoder, get_rs1, get_rs2, get_opcode, get_immediate}
use ca.Decoder.Fields.{decoder}
use ca.RegFile.{RegisterFile}
use ca.RegFile.Laws.{value}
use ca.Bus.{MemoryBus}
use ca.Stages.{Pipeline, IdEx, ExM}
use ca.Stages.Decode.{has_hazard, instruction_uses_rs2, bypass}
use ca.Stages.Execute.{Executed, execute_instruction, forward}
use ca.Stages.Forwarding.{commit_write_back, bypass-eq-committed}
use ca.Pipeline.OneStage.{issued, port}
use ca.Pipeline.Overlapped.Whole.{FetchDone, Succeeds, clocked}
use ca.Pipeline.Overlapped.After.{registers_after, moved_after}
use ca.Pipeline.SameMemory.{
  SameMemory, SameMemory-trans, SameMemory-sym, get_data_out-Alike, data_clock_pulse-Alike,
}
use ca.Pipeline.Text.{Text, Holds}
use ca.Pipeline.Overlapped.Operands.{passed, commit-registers, commit-IsComplete, value-registers}
use ca.Pipeline.Overlapped.Represents.{Accesses, Behind, Issued}

-- The same access on a bus with other counters.
pub Accesses-SameMemory :
    (e : ExM) (b b' : MemoryBus) (loaded : ℕ) (c : MemoryBus)
    → SameMemory b b'
    → Accesses e b loaded c
    → (c' : MemoryBus) × Accesses e b' loaded c' × SameMemory c c'
Accesses-SameMemory e b b' loaded c same a =
    let dm = port e.control e.alu_result e.write_data in
    let (r, reads, same₁) =
      get_data_out-Alike e.control.mem_sign_extend dm b b' same a.read_bus loaded a.reads in
    let (c', writes, same₂) = data_clock_pulse-Alike dm a.read_bus r same₁ c tt a.writes in
    (c', record { read_bus = r; reads = reads; writes = writes }, same₂)

-- Without a hazard the instruction ahead loads no source register.
not_loaded :
    (i : IdEx) (d : InstructionDecoder)
    → has_hazard i d ≡ false
    → i.control.mem_to_reg ≡ i.control.mem_read
    → ((i.control.mem_to_reg && not (i.rd == 0) && i.rd == get_rs1 d) ≡ false)
      × (instruction_uses_rs2 (get_opcode d) ≡ true
          → (i.control.mem_to_reg && not (i.rd == 0) && i.rd == get_rs2 d) ≡ false)
unfolding has_hazard
not_loaded i d no_hazard loads = (ground arith, λ used. ground arith)

module _ (text : Text) (p : Pipeline) (rf : RegisterFile) (bus : MemoryBus)
    (pipelined : p.pipelining ≡ true) (behind : Behind text p rf bus) where
  -- A cycle succeeds whose fetch keeps the memory, and in which an instruction is executed.
  pub record Ready (fetch : FetchDone p) (imm : ℤ) (r : Executed × Alu) : Type 0 where
    pub succeeds : Succeeds p
    pub same_fetch : succeeds.fetch ≡ fetch
    pub same_imm : succeeds.imm ≡ imm
    pub same_result : succeeds.executed ≡ r
    pub same_loaded : succeeds.loaded ≡ behind.loaded
    pub same_bus : SameMemory succeeds.written_bus bus

  pub ready :
      (fetch : FetchDone p) (imm : ℤ) (r : Executed × Alu)
      → SameMemory p.bus fetch.bus
      → get_immediate (decoder p.if_id.instruction_word) ≡ ok imm
      → execute_instruction p.id_ex p.execute.alu
          (forward p.ex_m p.m_wb p.id_ex.rs1 p.id_ex.read_data1)
          (forward p.ex_m p.m_wb p.id_ex.rs2 p.id_ex.read_data2)
        ≡ ok r
      → Ready fetch imm r
  ready fetch imm r same decodes executes =
      let (written_bus, accesses, same') =
        Accesses-SameMemory p.ex_m p.bus fetch.bus behind.loaded behind.accessed_bus same
          behind.accesses in
      record {
        succeeds = record {
          fetch = fetch;
          imm = imm;
          executed = r;
          loaded = behind.loaded;
          read_bus = accesses.read_bus;
          written_bus = written_bus;
          pipelined = pipelined;
          complete = behind.complete;
          decodes = decodes;
          executes = executes;
          reads = accesses.reads;
          writes = accesses.writes;
          rd_bound = behind.bounds.0;
        };
        same_fetch = refl;
        same_imm = refl;
        same_result = refl;
        same_loaded = refl;
        same_bus =
            SameMemory-trans written_bus behind.accessed_bus bus
              (SameMemory-sym behind.accessed_bus written_bus same') behind.memory;
      }

  -- The state after a cycle, if the instruction that was executed changes the registers and the
  -- memory from the given ones to others.
  pub Behind-after :
      (s : Succeeds p) (loaded : ℕ) (c : MemoryBus) (rf' : RegisterFile) (bus' : MemoryBus)
      → s.loaded ≡ behind.loaded
      → Holds text s.written_bus
      → p.id_ex.rd < 32
      → Accesses (clocked p s).ex_m s.written_bus loaded c
      → SameMemory c bus'
      → (commit_write_back (passed (clocked p s).ex_m loaded) rf).registers ≡ rf'.registers
      → Behind text (clocked p s) rf' bus'
  Behind-after s loaded c rf' bus' same holds bound accesses same' registers =
      let q = clocked p s in
      let after : q.regfile.registers ≡ (commit_write_back p.m_wb p.regfile).registers =
        registers_after p s in
      let passed_lem : q.m_wb ≡ passed p.ex_m behind.loaded = ap (passed p.ex_m) same in
      record {
        complete = ap length after ∙ commit-IsComplete p.m_wb p.regfile behind.complete;
        bounds = (behind.bounds.1, bound);
        holds = holds;
        loaded = loaded;
        accessed_bus = c;
        accesses = accesses;
        memory = same';
        registers =
            commit-registers (passed q.ex_m loaded) (commit_write_back q.m_wb q.regfile) rf (
              commit-registers q.m_wb q.regfile (commit_write_back p.m_wb p.regfile) after
              ∙ ap (λ m. (commit_write_back m (commit_write_back p.m_wb p.regfile)).registers)
                  passed_lem
              ∙ behind.registers)
            ∙ registers;
      }

  -- The instruction that is decoded in a cycle without a stall or a transfer.
  pub issued_after :
      (s : Succeeds p) (pc w : ℕ)
      → s.executed.0.pc_write_enable ≡ false
      → has_hazard p.id_ex (decoder w) ≡ false
      → p.id_ex.control.mem_to_reg ≡ p.id_ex.control.mem_read
      → p.if_id ≡ record { pc = pc; instruction_word = w }
      → Issued (clocked p s) pc w
  issued_after s pc w stays no_hazard loads fetched =
      let d = decoder w in
      let q = clocked p s in
      let committed_values = λ (rs : ℕ).
        bypass-eq-committed p.m_wb p.regfile rs behind.complete behind.bounds.0
        ∙ value-registers (commit_write_back p.m_wb p.regfile) q.regfile rs
            (sym (registers_after p s)) in
      let rs2_value =
        bypass p.m_wb (get_rs2 d) (instruction_uses_rs2 (get_opcode d))
          (value p.regfile (get_rs2 d)) in
      let moved =
        moved_after p s stays
          (ap (λ f. has_hazard p.id_ex (decoder f.instruction_word)) fetched ∙ no_hazard) in
      let (first, second) = not_loaded p.id_ex d no_hazard loads in
      record {
        imm = s.imm;
        rs2_value = rs2_value;
        decodes = ap (λ f. get_immediate (decoder f.instruction_word)) (sym fetched) ∙ s.decodes;
        in_execute =
            moved
            ∙ ap
                (λ f. record (issued f.pc f.instruction_word p.regfile s.imm) {
                  read_data1 =
                      bypass p.m_wb (get_rs1 (decoder f.instruction_word)) true
                        (value p.regfile (get_rs1 (decoder f.instruction_word)));
                  read_data2 =
                      bypass p.m_wb (get_rs2 (decoder f.instruction_word))
                        (instruction_uses_rs2 (get_opcode (decoder f.instruction_word)))
                        (value p.regfile (get_rs2 (decoder f.instruction_word)));
                })
                fetched
            ∙ ap
                (λ v. record (issued pc w p.regfile s.imm) {
                  read_data1 = v;
                  read_data2 = rs2_value;
                })
                (committed_values (get_rs1 d));
        rs2_read = λ used.
            ap (λ b. bypass p.m_wb (get_rs2 d) b (value p.regfile (get_rs2 d))) used
            ∙ committed_values (get_rs2 d);
        rs1_not_loaded = first;
        rs2_not_loaded = second;
      }
