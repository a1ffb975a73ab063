-- ===== src/Pipeline/OneStage.antt =====
-- The cycles of the mode that runs one stage in each, one by one.
use ca.Base.{ℕ, ◌+◌, ◌<◌, ◌≡◌, arith, false, ok, returns, Returns, ◌>>◌, ◌==◌, if◌then◌else◌, u64}
use ca.Base.Int.{ℤ}
use ca.Memory.{word}
use ca.Alu.{Alu}
use ca.Decoder.{
  get_opcode, get_rs1, get_rs2, get_rd, get_funct3, get_immediate, set_instruction_word,
}
use ca.Decoder.Fields.{decoder, register_fields}
use ca.RegFile
use ca.RegFile.{RegisterFile}
use ca.RegFile.Laws.{IsComplete, value, written, read_register-eq-value}
use ca.MemoryControl.{
  DataMemory, set_instruction_size, set_instruction_address, get_value, set_data_size,
  set_data_address, set_data_in, set_read_enable, set_write_enable, get_data_out, data_clock_pulse,
}
use ca.Control.{ControlSignals, set_from_instruction}
use ca.Bus
use ca.Bus.{MemoryBus}
use ca.Stages.{Pipeline, Step, IdEx}
use ca.Stages.Fetch
use ca.Stages.Fetch.{test_end_marker}
use ca.Stages.Decode
use ca.Stages.Execute
use ca.Stages.Execute.{Executed, execute_instruction}
use ca.Stages.Access
use ca.Stages.WriteBack
use ca.Pipeline

abbrev pub cycle : Step
cycle = Pipeline.propagate >> Pipeline.clock_pulse

-- Before the cycle of a stage.
abbrev pub IsAt : ℕ → Pipeline → Type 0
IsAt stage p =
    (p.pipelining ≡ false) × (p.current_stage ≡ stage) × (p.fetch.end_marker_seen ≡ false)

pub fetch_cycle :
    (p : Pipeline) (w : ℕ) (bus : MemoryBus)
    → IsAt 0 p
    → Bus.read word p.pc p.bus ≡ returns w bus
    → (w == test_end_marker) ≡ false
    → Returns
        (λ q.
          IsAt 1 q
          × (q.if_id ≡ record { pc = p.pc; instruction_word = w })
          × (q.pc ≡ u64 (p.pc + 4))
          × (q.regfile ≡ p.regfile)
          × (q.bus ≡ bus))
        (cycle p)
unfolding Pipeline.propagate Pipeline.clock_pulse Pipeline.stage_propagate
    Pipeline.stage_clock_pulse Fetch.propagate Fetch.fetch_word Fetch.accept_word Fetch.clock_pulse
    set_instruction_size set_instruction_address get_value
fetch_cycle p w bus at fetched unmarked = ground arith

-- What the decode stage passes on for a word that was fetched at `pc`.
abbrev pub issued : ℕ → ℕ → RegisterFile → ℤ → IdEx
issued pc w rf imm = record {
  pc = pc;
  read_data1 = value rf (get_rs1 (decoder w));
  read_data2 = value rf (get_rs2 (decoder w));
  immediate = imm;
  rd = get_rd (decoder w);
  rs1 = get_rs1 (decoder w);
  rs2 = get_rs2 (decoder w);
  opcode = get_opcode (decoder w);
  funct3 = get_funct3 (decoder w);
  control = set_from_instruction (decoder w);
}

-- The register file with its read ports set for a word.
abbrev selected : ℕ → RegisterFile → RegisterFile
selected w rf = record rf { rs1 = get_rs1 (decoder w); rs2 = get_rs2 (decoder w) }

decode_cycle_of_values :
    (p : Pipeline) (imm : ℤ) (v₁ v₂ : ℕ)
    → IsAt 1 p
    → RegFile.get_read_data1 (selected p.if_id.instruction_word p.regfile) ≡ ok v₁
    → RegFile.get_read_data2 (selected p.if_id.instruction_word p.regfile) ≡ ok v₂
    → get_immediate (decoder p.if_id.instruction_word) ≡ ok imm
    → Returns
        (λ q.
          IsAt 2 q
          × (q.id_ex ≡ record (issued p.if_id.pc p.if_id.instruction_word p.regfile imm) {
            read_data1 = v₁;
            read_data2 = v₂;
          })
          × (q.pc ≡ p.pc)
          × (q.regfile ≡ selected p.if_id.instruction_word p.regfile)
          × (q.bus ≡ p.bus))
        (cycle p)
unfolding Pipeline.propagate Pipeline.clock_pulse Pipeline.stage_propagate
    Pipeline.stage_clock_pulse Decode.propagate Decode.clock_pulse Decode.issue set_instruction_word
decode_cycle_of_values p imm v₁ v₂ at h₁ h₂ imm_ok = ground arith

selected_values :
    (w : ℕ) (rf : RegisterFile)
    → IsComplete rf
    → (RegFile.get_read_data1 (selected w rf) ≡ ok (value rf (get_rs1 (decoder w))))
      × (RegFile.get_read_data2 (selected w rf) ≡ ok (value rf (get_rs2 (decoder w))))
unfolding RegFile.get_read_data1 RegFile.get_read_data2 value
selected_values w rf c =
    let (rd, rs₁, rs₂) = register_fields w in
    (
      read_register-eq-value (selected w rf) (get_rs1 (decoder w)) c (omega (arith, rs₁)),
      read_register-eq-value (selected w rf) (get_rs2 (decoder w)) c (omega (arith, rs₂)),
    )

pub decode_cycle :
    (p : Pipeline) (imm : ℤ)
    → IsAt 1 p
    → IsComplete p.regfile
    → get_immediate (decoder p.if_id.instruction_word) ≡ ok imm
    → Returns
        (λ q.
          IsAt 2 q
          × (q.id_ex ≡ issued p.if_id.pc p.if_id.instruction_word p.regfile imm)
          × (q.pc ≡ p.pc)
          × (q.regfile ≡ selected p.if_id.instruction_word p.regfile)
          × (q.bus ≡ p.bus))
        (cycle p)
decode_cycle p imm at c imm_ok =
    let (h₁, h₂) = selected_values p.if_id.instruction_word p.regfile c in
    decode_cycle_of_values p imm _ _ at h₁ h₂ imm_ok

pub execute_cycle :
    (p : Pipeline) (e : Executed) (alu : Alu)
    → IsAt 2 p
    → execute_instruction p.id_ex p.execute.alu p.id_ex.read_data1 p.id_ex.read_data2 ≡ ok (e, alu)
    → Returns
        (λ q.
          IsAt 3 q
          × (q.ex_m ≡ record {
            pc = p.id_ex.pc;
            alu_result = e.result;
            write_data = p.id_ex.read_data2;
            rd = p.id_ex.rd;
            control = p.id_ex.control;
          })
          × (q.pc ≡ (if e.pc_write_enable then e.next_pc else p.pc))
          × (q.regfile ≡ p.regfile)
          × (q.bus ≡ p.bus))
        (cycle p)
unfolding Pipeline.propagate Pipeline.clock_pulse Pipeline.stage_propagate
    Pipeline.stage_clock_pulse Execute.propagate Execute.clock_pulse Execute.source_value
execute_cycle p e alu at done = ground arith

-- The settings of the data port for an instruction.
abbrev pub port : ControlSignals → ℕ → ℕ → DataMemory
port c addr v = record {
  size = c.mem_size;
  addr = addr;
  data_in = v;
  read_enable = c.mem_read;
  write_enable = c.mem_write;
}

pub access_cycle :
    (p : Pipeline) (loaded : ℕ) (read_bus bus : MemoryBus)
    → IsAt 3 p
    → get_data_out p.ex_m.control.mem_sign_extend
        (port p.ex_m.control p.ex_m.alu_result p.ex_m.write_data)
        p.bus
      ≡ returns loaded read_bus
    → data_clock_pulse (port p.ex_m.control p.ex_m.alu_result p.ex_m.write_data) read_bus
      ≡ returns tt bus
    → Returns
        (λ q.
          IsAt 4 q
          × (q.m_wb ≡ record {
            pc = p.ex_m.pc;
            alu_result = p.ex_m.alu_result;
            mem_data = loaded;
            rd = p.ex_m.rd;
            control = p.ex_m.control;
          })
          × (q.pc ≡ p.pc)
          × (q.regfile ≡ p.regfile)
          × (q.bus ≡ bus))
        (cycle p)
unfolding Pipeline.propagate Pipeline.clock_pulse Pipeline.stage_propagate
    Pipeline.stage_clock_pulse Access.propagate Access.clock_pulse Access.operate set_data_address
    set_data_size set_data_in set_read_enable set_write_enable get_data_out data_clock_pulse
access_cycle p loaded read_bus bus at reads writes = ground arith

pub write_back_cycle :
    (p : Pipeline)
    → IsAt 4 p
    → p.m_wb.rd < 32
    → Returns
        (λ q.
          IsAt 0 q
          × (q.regfile.registers
              ≡ (if p.m_wb.control.reg_write
                  then written p.m_wb.rd (Decode.write_back_value p.m_wb) p.regfile
                  else p.regfile).registers)
          × (q.pc ≡ p.pc)
          × (q.bus ≡ p.bus))
        (cycle p)
unfolding Pipeline.propagate Pipeline.clock_pulse Pipeline.stage_propagate
    Pipeline.stage_clock_pulse WriteBack.propagate WriteBack.clock_pulse RegFile.clock_pulse
    RegFile.write_register written
write_back_cycle p at h = ground arith
