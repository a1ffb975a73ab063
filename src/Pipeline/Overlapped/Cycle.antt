-- ===== src/Pipeline/Overlapped/Cycle.antt =====
-- A cycle of the pipelined mode in which every stage succeeds, as one new state: what each stage
-- makes of the state that the stages before it leave.
use ca.Base.{
  ℕ, ◌+◌, ◌<◌, ◌≡◌, refl, arith, true, false, not, ◌||◌, ok, returns, ◌==◌, if◌then◌else◌, u64,
}
use ca.Base.Int.{ℤ}
use ca.Alu.{Alu}
use ca.Decoder.{
  get_opcode, get_rs1, get_rs2, get_rd, get_funct3, get_immediate, set_instruction_word,
}
use ca.Decoder.Fields.{decoder}
use ca.RegFile
use ca.RegFile.Laws.{written}
use ca.MemoryControl.{
  set_data_size, set_data_address, set_data_in, set_read_enable, set_write_enable, get_data_out,
  data_clock_pulse,
}
use ca.Control.{set_from_instruction}
use ca.Bus.{MemoryBus}
use ca.Stages.{Pipeline, empty_id_ex}
use ca.Stages.Decode
use ca.Stages.Decode.{bypass, has_hazard, instruction_uses_rs2, write_back_value}
use ca.Stages.Execute
use ca.Stages.Execute.{Executed, execute_instruction, source_value}
use ca.Stages.Access
use ca.Stages.WriteBack
use ca.Pipeline.OneStage.{port}

abbrev pub after_decode : ℕ → ℕ → Pipeline → Pipeline
after_decode v₁ v₂ p =
    let d = decoder p.if_id.instruction_word in
    record p {
      decode = record {
        pc = p.if_id.pc;
        instruction_word = p.if_id.instruction_word;
        decoded_control = set_from_instruction d;
        read_data1 = bypass p.m_wb (get_rs1 d) true v₁;
        read_data2 = bypass p.m_wb (get_rs2 d) (instruction_uses_rs2 (get_opcode d)) v₂;
      };
      decoder = d;
      regfile = record (p.regfile) { rs1 = get_rs1 d; rs2 = get_rs2 d };
      control =
          (if has_hazard p.id_ex d
            then record (p.control) { stall_fetch = true; insert_decode_bubble = true }
            else p.control);
    }

pub decode_lem :
    (p : Pipeline) (v₁ v₂ : ℕ)
    → p.pipelining ≡ true
    → RegFile.read_register (get_rs1 (decoder p.if_id.instruction_word)) (record (p.regfile) {
      rs1 = get_rs1 (decoder p.if_id.instruction_word);
      rs2 = get_rs2 (decoder p.if_id.instruction_word);
    })
      ≡ ok v₁
    → RegFile.read_register (get_rs2 (decoder p.if_id.instruction_word)) (record (p.regfile) {
      rs1 = get_rs1 (decoder p.if_id.instruction_word);
      rs2 = get_rs2 (decoder p.if_id.instruction_word);
    })
      ≡ ok v₂
    → Decode.propagate p ≡ returns tt (after_decode v₁ v₂ p)
unfolding Decode.propagate set_instruction_word RegFile.get_read_data1 RegFile.get_read_data2
decode_lem p v₁ v₂ run h₁ h₂ = ground arith

abbrev pub after_execute : Executed → Alu → ℕ → Pipeline → Pipeline
after_execute e alu rs2_value p = record p {
  execute = record {
    alu = alu;
    pc_write_enable = e.pc_write_enable;
    next_pc = e.next_pc;
    pc = p.id_ex.pc;
    alu_result = e.result;
    write_data = rs2_value;
    next_rd = p.id_ex.rd;
    next_control = p.id_ex.control;
  };
  control =
      (if e.pc_write_enable
        then record (p.control) { flush_fetch = true; flush_decode = true }
        else p.control);
}

pub execute_lem :
    (p : Pipeline) (e : Executed) (alu : Alu)
    → execute_instruction p.id_ex p.execute.alu
        (source_value p p.id_ex.rs1 p.id_ex.read_data1)
        (source_value p p.id_ex.rs2 p.id_ex.read_data2)
      ≡ ok (e, alu)
    → Execute.propagate p
      ≡ returns tt (after_execute e alu (source_value p p.id_ex.rs2 p.id_ex.read_data2) p)
unfolding Execute.propagate
execute_lem p e alu done = ground arith

-- The port as `propagate` leaves it: its old settings stay if the instruction does not use memory.
abbrev pub after_access : ℕ → MemoryBus → Pipeline → Pipeline
after_access loaded bus p =
    let c = p.ex_m.control in
    let idle = record (p.access.data_memory) { read_enable = false; write_enable = false } in
    record p {
      access = record {
        data_memory =
            (if c.mem_read || c.mem_write
              then port c p.ex_m.alu_result p.ex_m.write_data
              else idle);
        pc = p.ex_m.pc;
        alu_result = p.ex_m.alu_result;
        mem_data = loaded;
        next_rd = p.ex_m.rd;
        next_control = c;
      };
      bus = bus;
    }

-- A port that is used has one of the sizes that `setDataSize` takes.
pub access_lem :
    (p : Pipeline) (loaded : ℕ) (read_bus bus : MemoryBus)
    → get_data_out p.ex_m.control.mem_sign_extend
        (port p.ex_m.control p.ex_m.alu_result p.ex_m.write_data)
        p.bus
      ≡ returns loaded read_bus
    → data_clock_pulse (port p.ex_m.control p.ex_m.alu_result p.ex_m.write_data) read_bus
      ≡ returns tt bus
    → Access.propagate p ≡ returns tt (after_access loaded read_bus p)
unfolding Access.propagate Access.operate set_data_address set_data_size set_data_in set_read_enable
    set_write_enable get_data_out data_clock_pulse
access_lem p loaded read_bus bus reads writes = ground arith

abbrev pub after_write_back : Pipeline → Pipeline
after_write_back p = record p {
  n_instr_completed =
      (if not p.pipelining || not (p.m_wb.pc == 0)
        then u64 (p.n_instr_completed + 1)
        else p.n_instr_completed);
  regfile = record (p.regfile) {
    rd = p.m_wb.rd;
    write_enable = p.m_wb.control.reg_write;
    write_data = write_back_value p.m_wb;
  };
}

pub write_back_lem : (p : Pipeline) → WriteBack.propagate p ≡ returns tt (after_write_back p)
unfolding WriteBack.propagate
write_back_lem p = refl

-- The register between decoding and execution, and the counters.
abbrev pub decode_clocked : ℤ → Pipeline → Pipeline
decode_clocked imm p =
    let c = p.control in
    let bubble = c.flush_decode || c.insert_decode_bubble in
    record p {
      id_ex =
          (if bubble then empty_id_ex else record {
            pc = p.decode.pc;
            read_data1 = p.decode.read_data1;
            read_data2 = p.decode.read_data2;
            immediate = imm;
            rd = get_rd p.decoder;
            rs1 = get_rs1 p.decoder;
            rs2 = get_rs2 p.decoder;
            opcode = get_opcode p.decoder;
            funct3 = get_funct3 p.decoder;
            control = p.decode.decoded_control;
          });
      n_stalls =
          (if c.flush_decode
            then p.n_stalls
            else if c.insert_decode_bubble
            then u64 (p.n_stalls + 1)
            else p.n_stalls);
      n_instr_issued =
          (if bubble
            then p.n_instr_issued
            else if p.decode.pc == 0
            then p.n_instr_issued
            else u64 (p.n_instr_issued + 1));
    }

pub decode_clock_lem :
    (p : Pipeline) (imm : ℤ)
    → p.pipelining ≡ true
    → get_immediate p.decoder ≡ ok imm
    → Decode.clock_pulse p ≡ returns tt (decode_clocked imm p)
unfolding Decode.clock_pulse Decode.issue
decode_clock_lem p imm run decodes = ground arith

abbrev pub execute_clocked : Pipeline → Pipeline
execute_clocked p =
    let x = p.execute in
    record p {
      ex_m = record {
        pc = x.pc;
        alu_result = x.alu_result;
        write_data = x.write_data;
        rd = x.next_rd;
        control = x.next_control;
      };
      pc = if x.pc_write_enable then x.next_pc else p.pc;
      execute = record x { pc_write_enable = false };
    }

pub execute_clock_lem : (p : Pipeline) → Execute.clock_pulse p ≡ returns tt (execute_clocked p)
unfolding Execute.clock_pulse
execute_clock_lem p = ground arith

abbrev pub access_clocked : MemoryBus → Pipeline → Pipeline
access_clocked bus p = record p {
  bus = bus;
  m_wb = record {
    pc = p.access.pc;
    alu_result = p.access.alu_result;
    mem_data = p.access.mem_data;
    rd = p.access.next_rd;
    control = p.access.next_control;
  };
}

pub access_clock_lem :
    (p : Pipeline) (bus : MemoryBus)
    → data_clock_pulse p.access.data_memory p.bus ≡ returns tt bus
    → Access.clock_pulse p ≡ returns tt (access_clocked bus p)
unfolding Access.clock_pulse
access_clock_lem p bus writes = ground arith

abbrev pub write_back_clocked : Pipeline → Pipeline
write_back_clocked p =
    let f = p.regfile in
    record p { regfile = if f.write_enable then written f.rd f.write_data f else f }

pub write_back_clock_lem :
    (p : Pipeline) → p.regfile.rd < 32 → WriteBack.clock_pulse p ≡ returns tt (write_back_clocked p)
unfolding WriteBack.clock_pulse RegFile.clock_pulse RegFile.write_register written
write_back_clock_lem p h = ground arith
