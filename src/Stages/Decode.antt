-- ===== src/Stages/Decode.antt =====
-- InstructionDecodeStage of src/stages.h and src/stages.cc.
use ca.Base.{
  ℕ, ◌+◌, Bool, true, false, not, ◌&&◌, ◌||◌, returns, lift, ◌>>=◌, ◌>>◌, get, modify, ◌==◌,
  if◌then◌else◌, u64,
}
use ca.Decoder.{
  InstructionDecoder, Opcode, op, op_32, store, branch, set_instruction_word, get_opcode, get_rs1,
  get_rs2, get_rd, get_funct3, get_immediate,
}
use ca.RegFile.{get_read_data1, get_read_data2}
use ca.Control.{set_from_instruction}
use ca.Stages.{IdEx, MWb, Step, empty_id_ex}

unfoldable pub instruction_uses_rs2 : Opcode → Bool
instruction_uses_rs2 op = true
instruction_uses_rs2 op_32 = true
instruction_uses_rs2 store = true
instruction_uses_rs2 branch = true
instruction_uses_rs2 _ = false

-- What the write-back stage is about to write.
abbrev pub write_back_value : MWb → ℕ
write_back_value m = if m.control.mem_to_reg then m.mem_data else m.alu_result

-- The value read for a register, or the one about to be written back to it.
unfoldable pub bypass : MWb → ℕ → Bool → ℕ → ℕ
bypass m rs used read =
    if m.control.reg_write && not (m.rd == 0) && (used && m.rd == rs)
    then write_back_value m
    else read

-- The instruction ahead is a load into a register that this one reads.
unfoldable pub has_hazard : IdEx → InstructionDecoder → Bool
has_hazard e d =
    e.control.mem_read
    && not (e.rd == 0)
    && (e.rd == get_rs1 d || instruction_uses_rs2 (get_opcode d) && e.rd == get_rs2 d)

unfoldable pub propagate : Step
propagate = do
  p ← get
  let d = set_instruction_word p.if_id.instruction_word p.decoder
  let rf = record (p.regfile) { rs1 = get_rs1 d; rs2 = get_rs2 d }
  modify λ q. record q {
    decode = record (q.decode) {
      pc = q.if_id.pc;
      instruction_word = q.if_id.instruction_word;
      decoded_control = set_from_instruction d;
    };
    decoder = d;
    regfile = rf;
  }
  value1 ← lift (get_read_data1 rf)
  modify λ q. record q { decode = record (q.decode) { read_data1 = value1 } }
  value2 ← lift (get_read_data2 rf)
  modify λ q. record q { decode = record (q.decode) { read_data2 = value2 } }
  modify λ q.
      if q.pipelining
      then record q {
        decode = record (q.decode) {
          read_data1 = bypass q.m_wb (get_rs1 d) true value1;
          read_data2 = bypass q.m_wb (get_rs2 d) (instruction_uses_rs2 (get_opcode d)) value2;
        };
        control =
            (if has_hazard q.id_ex d
              then record (q.control) { stall_fetch = true; insert_decode_bubble = true }
              else q.control);
      }
      else q

-- The rest of `clockPulse`, for an instruction that goes on to the next stage. The immediate is
-- computed after three fields of the pipeline register are written, and may throw.
unfoldable pub issue : Step
issue = do
  p ← get
  let d = p.decoder
  modify λ q.
      if not q.pipelining || not (q.decode.pc == 0)
      then record q { n_instr_issued = u64 (q.n_instr_issued + 1) }
      else q
  modify λ q. record q {
    id_ex = record (q.id_ex) {
      pc = q.decode.pc;
      read_data1 = q.decode.read_data1;
      read_data2 = q.decode.read_data2;
    };
  }
  imm ← lift (get_immediate d)
  modify λ q. record q {
    id_ex = record (q.id_ex) {
      immediate = imm;
      rd = get_rd d;
      rs1 = get_rs1 d;
      rs2 = get_rs2 d;
      opcode = get_opcode d;
      funct3 = get_funct3 d;
      control = q.decode.decoded_control;
    };
  }

unfoldable pub clock_pulse : Step
clock_pulse p =
    if p.pipelining && p.control.flush_decode
    then returns tt (record p { id_ex = empty_id_ex })
    else if p.pipelining && p.control.insert_decode_bubble
    then returns tt (record p { n_stalls = u64 (p.n_stalls + 1); id_ex = empty_id_ex })
    else issue p
