-- ===== src/Pipeline.antt =====
-- src/pipeline.h and src/pipeline.cc: the five stages in one cycle, or one stage a cycle.
pub mod EndMarker
pub mod WellFormed
pub mod OneStage
pub mod Instruction
pub mod FiveCycles
pub mod Program
pub mod SameMemory
pub mod Text
pub mod Ends
pub mod Completes
pub mod Overlapped
pub mod OneByOne
pub mod Hazards
pub mod Transfers
pub mod Forwarding
mod Tests
use ca.Base.{ℕ, ◌+◌, ◌%◌, Bool, false, ◌>>=◌, ◌>>◌, get, modify, ◌==◌, if◌then◌else◌}
use ca.Base
use ca.Alu.{AluOp}
use ca.Bus.{MemoryBus}
use ca.RegFile.{RegisterFile}
use ca.Control.{no_signals}
use ca.MemoryControl.{initial_instruction_memory, initial_data_memory}
use ca.Stages.{Pipeline, Step, reset_control, nop_instruction, empty_id_ex}
use ca.Stages.Fetch
use ca.Stages.Decode
use ca.Stages.Execute
use ca.Stages.Access
use ca.Stages.WriteBack

-- The constructor, with the members' initial values, on the PC, register file and bus given.
unfoldable pub initial : Bool → ℕ → RegisterFile → MemoryBus → Pipeline
initial pipelining pc regfile bus = record {
  pipelining = pipelining;
  current_stage = 0;
  n_instr_issued = 0;
  n_instr_completed = 0;
  n_stalls = 0;
  fetch = record {
    instruction_memory = initial_instruction_memory;
    fetch_pc = 0;
    fetched_instruction = 0;
    end_marker_seen = false;
    end_marker_countdown = 0;
    end_marker_pc = 0;
  };
  decode = record {
    pc = 0;
    instruction_word = 0;
    decoded_control = no_signals;
    read_data1 = 0;
    read_data2 = 0;
  };
  execute = record {
    alu = record { a = 0; b = 0; op = AluOp.nop };
    pc_write_enable = false;
    next_pc = 0;
    pc = 0;
    alu_result = 0;
    write_data = 0;
    next_rd = 0;
    next_control = no_signals;
  };
  access = record {
    data_memory = initial_data_memory;
    pc = 0;
    alu_result = 0;
    mem_data = 0;
    next_rd = 0;
    next_control = no_signals;
  };
  if_id = record { pc = 0; instruction_word = nop_instruction };
  id_ex = empty_id_ex;
  ex_m = record { pc = 0; alu_result = 0; write_data = 0; rd = 0; control = no_signals };
  m_wb = record { pc = 0; alu_result = 0; mem_data = 0; rd = 0; control = no_signals };
  control = reset_control;
  pc = pc;
  regfile = regfile;
  decoder = record { instruction_word = 0 };
  bus = bus;
}

-- `stages[n]->propagate()`; there are five stages.
unfoldable pub stage_propagate : ℕ → Step
stage_propagate n p =
    if n == 0
    then Fetch.propagate p
    else if n == 1
    then Decode.propagate p
    else if n == 2
    then Execute.propagate p
    else if n == 3
    then Access.propagate p
    else if n == 4
    then WriteBack.propagate p
    else Base.Outcome.undefined

unfoldable pub stage_clock_pulse : ℕ → Step
stage_clock_pulse n p =
    if n == 0
    then Fetch.clock_pulse p
    else if n == 1
    then Decode.clock_pulse p
    else if n == 2
    then Execute.clock_pulse p
    else if n == 3
    then Access.clock_pulse p
    else if n == 4
    then WriteBack.clock_pulse p
    else Base.Outcome.undefined

unfoldable pub propagate_all : Step
propagate_all = do
  Fetch.propagate
  Decode.propagate
  Execute.propagate
  Access.propagate
  WriteBack.propagate

unfoldable pub clock_pulse_all : Step
clock_pulse_all = do
  Fetch.clock_pulse
  Decode.clock_pulse
  Execute.clock_pulse
  Access.clock_pulse
  WriteBack.clock_pulse

unfoldable pub propagate : Step
propagate p =
    let q = record p { control = reset_control } in
    if q.pipelining then propagate_all q else stage_propagate q.current_stage q

unfoldable pub clock_pulse : Step
clock_pulse p =
    if p.pipelining
    then clock_pulse_all p
    else (stage_clock_pulse p.current_stage
          >> modify λ q. record q { current_stage = (q.current_stage + 1) % 5 })
        p
