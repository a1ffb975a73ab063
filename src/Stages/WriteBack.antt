-- ===== src/Stages/WriteBack.antt =====
-- WriteBackStage of src/stages.h and src/stages.cc.
use ca.Base.{◌+◌, not, ◌||◌, returns, lift, ◌>>=◌, get, modify, ◌==◌, if◌then◌else◌, u64}
use ca.RegFile
use ca.Stages.{Step}

unfoldable pub propagate : Step
propagate p =
    let m = p.m_wb in
    returns tt (record p {
      n_instr_completed =
          (if not p.pipelining || not (m.pc == 0)
            then u64 (p.n_instr_completed + 1)
            else p.n_instr_completed);
      regfile = record (p.regfile) {
        rd = m.rd;
        write_enable = m.control.reg_write;
        write_data = if m.control.mem_to_reg then m.mem_data else m.alu_result;
      };
    })

unfoldable pub clock_pulse : Step
clock_pulse = do
  p ← get
  rf ← lift (RegFile.clock_pulse p.regfile)
  modify λ q. record q { regfile = rf }
