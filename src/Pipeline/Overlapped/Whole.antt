-- ===== src/Pipeline/Overlapped/Whole.antt =====
-- The stages of a cycle put together.
use ca.Base.{
  ℕ, ◌<◌, ◌≡◌, refl, ap, ◌∙◌, arith, Bool, true, false, ◌||◌, ok, returns, throws,
  test_end_marker_encountered, ◌>>◌, if_true, if◌then◌else◌,
}
use ca.Base.Int.{ℤ}
use ca.Alu.{Alu}
use ca.Decoder.{get_rs1, get_rs2, get_immediate}
use ca.Decoder.Fields.{decoder, register_fields}
use ca.RegFile.{read_register}
use ca.RegFile.Laws.{IsComplete, value, read_register-eq-value}
use ca.MemoryControl.{DataMemory, get_data_out, data_clock_pulse}
use ca.Bus.{MemoryBus}
use ca.Stages.{Pipeline, FetchStage, Step, ExM}
use ca.Stages.Fetch
use ca.Stages.Fetch.{test_end_marker}
use ca.Stages.Decode
use ca.Stages.Decode.{bypass, has_hazard, instruction_uses_rs2}
use ca.Stages.Execute
use ca.Stages.Execute.{Executed, execute_instruction, forward, source_value}
use ca.Stages.Access
use ca.Pipeline
use ca.Pipeline.OneStage.{cycle, port}
use ca.Pipeline.Overlapped.Cycle.{
  after_decode, after_execute, after_access, after_write_back, decode_clocked, execute_clocked,
  access_clocked, write_back_clocked, decode_lem, execute_lem, access_lem, write_back_lem,
  decode_clock_lem, execute_clock_lem, access_clock_lem, write_back_clock_lem,
}
use ca.Pipeline.Overlapped.FetchCycle.{begun, after_fetch, fetch_clocked, end_clock_lem}

-- The end marker was not fetched, or the pipeline still drains.
abbrev pub Goes : FetchStage → Type 0
Goes f = f.end_marker_seen ≡ true → 0 < f.end_marker_countdown

-- What the fetch stage does in a cycle: its fields, the bus and the flush line that `propagate`
-- leaves, and its fields after the clock pulse.
pub record FetchDone (p : Pipeline) : Type 0 where
  pub after : FetchStage
  pub final : FetchStage
  pub flush : Bool
  pub bus : MemoryBus
  pub done : Fetch.propagate (begun p) ≡ returns tt (after_fetch after bus flush (begun p))
  pub clocked :
      (q : Pipeline)
      → q.pipelining ≡ true
      → q.fetch ≡ after
      → Goes after
      → Fetch.clock_pulse q ≡ returns tt (fetch_clocked final q)

-- What every stage needs to succeed, with what it finds.
pub record Succeeds (p : Pipeline) : Type 0 where
  pub fetch : FetchDone p
  pub imm : ℤ
  pub executed : Executed × Alu
  pub loaded : ℕ
  pub read_bus : MemoryBus
  pub written_bus : MemoryBus
  pub pipelined : p.pipelining ≡ true
  pub complete : IsComplete p.regfile
  pub decodes : get_immediate (decoder p.if_id.instruction_word) ≡ ok imm
  pub executes :
      execute_instruction p.id_ex p.execute.alu
        (forward p.ex_m p.m_wb p.id_ex.rs1 p.id_ex.read_data1)
        (forward p.ex_m p.m_wb p.id_ex.rs2 p.id_ex.read_data2)
      ≡ ok executed
  pub reads :
      get_data_out p.ex_m.control.mem_sign_extend
        (port p.ex_m.control p.ex_m.alu_result p.ex_m.write_data)
        fetch.bus
      ≡ returns loaded read_bus
  pub writes :
      data_clock_pulse (port p.ex_m.control p.ex_m.alu_result p.ex_m.write_data) read_bus
      ≡ returns tt written_bus
  pub rd_bound : p.m_wb.rd < 32

-- The values of the source registers in the register file.
abbrev pub read1 : Pipeline → ℕ
read1 p = value p.regfile (get_rs1 (decoder p.if_id.instruction_word))

abbrev pub read2 : Pipeline → ℕ
read2 p = value p.regfile (get_rs2 (decoder p.if_id.instruction_word))

reads1 :
    (p : Pipeline) (rs1 rs2 : ℕ)
    → IsComplete p.regfile
    → read_register
        (get_rs1 (decoder p.if_id.instruction_word))
        (record (p.regfile) { rs1 = rs1; rs2 = rs2 })
      ≡ ok (read1 p)
unfolding value
reads1 p rs1 rs2 c =
    let w = p.if_id.instruction_word in
    read_register-eq-value (record (p.regfile) { rs1 = rs1; rs2 = rs2 }) (get_rs1 (decoder w)) c
      (omega (arith, register_fields w))

reads2 :
    (p : Pipeline) (rs1 rs2 : ℕ)
    → IsComplete p.regfile
    → read_register
        (get_rs2 (decoder p.if_id.instruction_word))
        (record (p.regfile) { rs1 = rs1; rs2 = rs2 })
      ≡ ok (read2 p)
unfolding value
reads2 p rs1 rs2 c =
    let w = p.if_id.instruction_word in
    read_register-eq-value (record (p.regfile) { rs1 = rs1; rs2 = rs2 }) (get_rs2 (decoder w)) c
      (omega (arith, register_fields w))

-- A call that returns, in front of others.
pub then_lem : (m k : Step) (p q : Pipeline) → m p ≡ returns tt q → (m >> k) p ≡ k q
then_lem m k p q e = rw e

forwarded_lem :
    (p : Pipeline) (e : Executed) (alu : Alu)
    → p.pipelining ≡ true
    → execute_instruction p.id_ex p.execute.alu
        (forward p.ex_m p.m_wb p.id_ex.rs1 p.id_ex.read_data1)
        (forward p.ex_m p.m_wb p.id_ex.rs2 p.id_ex.read_data2)
      ≡ ok (e, alu)
    → Execute.propagate p
      ≡ returns tt (after_execute e alu (forward p.ex_m p.m_wb p.id_ex.rs2 p.id_ex.read_data2) p)
forwarded_lem p e alu run done =
    let e₁ : source_value p p.id_ex.rs1 p.id_ex.read_data1
        ≡ forward p.ex_m p.m_wb p.id_ex.rs1 p.id_ex.read_data1 =
      unfold source_value in if_true _ _ run in
    let e₂ : source_value p p.id_ex.rs2 p.id_ex.read_data2
        ≡ forward p.ex_m p.m_wb p.id_ex.rs2 p.id_ex.read_data2 =
      unfold source_value in if_true _ _ run in
    execute_lem p e alu (rw (e₁, e₂) done) ∙ ap (λ v. returns tt (after_execute e alu v p)) e₂

-- A port that is not used writes nothing, whatever its other settings.
pub port_writes :
    (e : ExM) (idle : DataMemory) (bus bus' : MemoryBus)
    → data_clock_pulse (port e.control e.alu_result e.write_data) bus ≡ returns tt bus'
    → data_clock_pulse
        (if e.control.mem_read || e.control.mem_write
          then port e.control e.alu_result e.write_data
          else record idle { read_enable = false; write_enable = false })
        bus
      ≡ returns tt bus'
unfolding data_clock_pulse
port_writes e idle bus bus' h = ground arith

module _ (p : Pipeline) (s : Succeeds p) where
  abbrev with_fetched : Pipeline
  with_fetched = after_fetch s.fetch.after s.fetch.bus s.fetch.flush (begun p)

  abbrev with_values : Pipeline
  with_values = after_decode (read1 p) (read2 p) with_fetched

  abbrev with_result : Pipeline
  with_result =
      after_execute (s.executed.0) (s.executed.1)
        (forward p.ex_m p.m_wb p.id_ex.rs2 p.id_ex.read_data2) with_values

  abbrev with_loaded : Pipeline
  with_loaded = after_access s.loaded s.read_bus with_result

  abbrev pub propagated : Pipeline
  propagated = after_write_back with_loaded

  abbrev pub clocked : Pipeline
  clocked = write_back_clocked (
      access_clocked s.written_bus
        (execute_clocked (decode_clocked s.imm (fetch_clocked s.fetch.final propagated))))

  propagate_lem : Pipeline.propagate p ≡ returns tt propagated
  unfolding Pipeline.propagate Pipeline.propagate_all
  propagate_lem =
      if_true _ _ (s.pipelined)
      ∙ then_lem Fetch.propagate _ (begun p) with_fetched s.fetch.done
      ∙ then_lem Decode.propagate _ with_fetched with_values (
          decode_lem with_fetched (read1 p) (read2 p) s.pipelined (reads1 p _ _ s.complete)
            (reads2 p _ _ s.complete))
      ∙ then_lem Execute.propagate _ with_values with_result
          (forwarded_lem with_values (s.executed.0) (s.executed.1) (s.pipelined) s.executes)
      ∙ then_lem Access.propagate _ with_result with_loaded
          (access_lem with_result s.loaded s.read_bus s.written_bus s.reads s.writes)
      ∙ write_back_lem with_loaded

  clock_pulse_lem : Goes s.fetch.after → Pipeline.clock_pulse propagated ≡ returns tt clocked
  unfolding Pipeline.clock_pulse Pipeline.clock_pulse_all
  clock_pulse_lem goes =
      if_true _ _ (s.pipelined)
      ∙ then_lem Fetch.clock_pulse _ propagated at_fetch
          (s.fetch.clocked propagated s.pipelined refl goes)
      ∙ then_lem Decode.clock_pulse _ at_fetch at_decode
          (decode_clock_lem at_fetch s.imm s.pipelined s.decodes)
      ∙ then_lem Execute.clock_pulse _ at_decode at_execute (execute_clock_lem at_decode)
      ∙ then_lem Access.clock_pulse _ at_execute at_access (
          access_clock_lem at_execute s.written_bus
            (port_writes p.ex_m p.access.data_memory s.read_bus s.written_bus s.writes))
      ∙ write_back_clock_lem at_access s.rd_bound
    where
      at_fetch : Pipeline
      at_fetch = fetch_clocked s.fetch.final propagated

      at_decode : Pipeline
      at_decode = decode_clocked s.imm at_fetch

      at_execute : Pipeline
      at_execute = execute_clocked at_decode

      at_access : Pipeline
      at_access = access_clocked s.written_bus at_execute

  -- A cycle in which every stage succeeds returns, to this state.
  pub cycle_lem : Goes s.fetch.after → cycle p ≡ returns tt clocked
  cycle_lem goes = rw propagate_lem (clock_pulse_lem goes)

  -- Where the pipeline has drained, it throws the exception of the end marker, and the registers and
  -- the memory are as they were.
  pub end_cycle_lem :
      s.fetch.after.end_marker_seen ≡ true
      → s.fetch.after.end_marker_countdown ≡ 0
      → cycle p
        ≡ throws
            (test_end_marker_encountered s.fetch.after.end_marker_pc)
            (fetch_clocked s.fetch.after propagated)
  unfolding Pipeline.clock_pulse Pipeline.clock_pulse_all
  end_cycle_lem seen left =
      rw propagate_lem
        (if_true _ _ s.pipelined ∙ rw (end_clock_lem propagated s.pipelined seen left) refl)
