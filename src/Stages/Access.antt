-- ===== src/Stages/Access.antt =====
-- MemoryStage of src/stages.h and src/stages.cc.
use ca.Base.{false, ◌||◌, returns, lift, pure, ◌>>=◌, ◌>>◌, get, modify, if◌then◌else◌}
use ca.MemoryControl.{
  DataMemory, set_data_size, set_data_address, set_data_in, set_read_enable, set_write_enable,
  get_data_out, data_clock_pulse,
}
use ca.Stages.{Pipeline, ExM, Step, on_bus}

abbrev with_data_memory : DataMemory → Pipeline → Pipeline
with_data_memory dm p = record p { access = record (p.access) { data_memory = dm } }

-- The configuration of the memory port, and the read, for an instruction with a memory operation.
unfoldable pub operate : ExM → Step
operate e = do
  p ← get
  let addressed = set_data_address e.alu_result p.access.data_memory
  modify (with_data_memory addressed)
  sized ← lift (set_data_size e.control.mem_size addressed)
  let ready =
      set_write_enable e.control.mem_write
        (set_read_enable e.control.mem_read (set_data_in e.write_data sized))
  modify (with_data_memory ready)
  if e.control.mem_read
      then (do
        v ← on_bus (get_data_out e.control.mem_sign_extend ready)
        modify λ q. record q { access = record (q.access) { mem_data = v } })
      else pure tt

unfoldable pub propagate : Step
propagate p =
    let e = p.ex_m in
    let q = record p {
      access = record {
        data_memory = set_write_enable false (set_read_enable false p.access.data_memory);
        pc = e.pc;
        alu_result = e.alu_result;
        mem_data = 0;
        next_rd = e.rd;
        next_control = e.control;
      };
    } in
    if e.control.mem_read || e.control.mem_write then operate e q else returns tt q

unfoldable pub clock_pulse : Step
clock_pulse = do
  p ← get
  on_bus (data_clock_pulse p.access.data_memory)
  modify λ q. record q {
    m_wb = record {
      pc = q.access.pc;
      alu_result = q.access.alu_result;
      mem_data = q.access.mem_data;
      rd = q.access.next_rd;
      control = q.access.next_control;
    };
  }
