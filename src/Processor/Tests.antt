-- ===== src/Processor/Tests.antt =====
-- Runs of a small program in both modes.
use ca.Base.{
  ℕ, ◌≡◌, refl, arith, ok, throw, returns, Result, Bool, true, false, List, [], ◌∷◌, replicate,
  illegal_instruction, some, inl,
}
use ca.Base
use ca.Alu
use ca.Decoder
use ca.RegFile
use ca.Memory
use ca.Memory.{Memory, byte, word}
use ca.Serial
use ca.SysStatus
use ca.Bus
use ca.Bus.{Client, MemoryBus, memory}
use ca.MemoryControl
use ca.Control
use ca.Stages.Fetch
use ca.Stages.Fetch.{test_end_marker}
use ca.Stages.Decode
use ca.Stages.Execute
use ca.Stages.Access
use ca.Stages.WriteBack
use ca.Pipeline
use ca.Processor.{
  Processor, Ending, ended, out_of_fuel, run, initial, get_register, should_halt, cycle, bus_ticked,
  count_cycle, after_cycle, verdict,
}
use ca.Processor.Halting.{with_bus, halt_request-run}
use ca.Processor.EndMarker.{Finishes, run_ends_after_marker}

-- addi r1, r0, 5; addi r2, r0, 7; add r3, r1, r2; sd r3, 0x108(r0); ld r4, 0x108(r0);
-- add r5, r4, r4; addi r6, r0, 0x278; sb r0, 0(r6); nop; nop; nop; nop
abbrev sum_program : List ℕ
sum_program =
    0x93 ∷ 0x00 ∷ 0x50 ∷ 0x00 ∷ 0x13 ∷ 0x01 ∷ 0x70 ∷ 0x00 ∷ 0xb3 ∷ 0x81 ∷ 0x20 ∷ 0x00 ∷ 0x23 ∷ 0x34
    ∷ 0x30 ∷ 0x10 ∷ 0x03 ∷ 0x32 ∷ 0x80 ∷ 0x10 ∷ 0xb3 ∷ 0x02 ∷ 0x42 ∷ 0x00 ∷ 0x13 ∷ 0x03 ∷ 0x80
    ∷ 0x27 ∷ 0x23 ∷ 0x00 ∷ 0x03 ∷ 0x00 ∷ 0x13 ∷ 0x00 ∷ 0x00 ∷ 0x00 ∷ 0x13 ∷ 0x00 ∷ 0x00 ∷ 0x00
    ∷ 0x13 ∷ 0x00 ∷ 0x00 ∷ 0x00 ∷ 0x13 ∷ 0x00 ∷ 0x00 ∷ 0x00 ∷ []

abbrev sum_memories : List Client
sum_memories =
    memory (record {
      name = "text";
      may_write = false;
      base = 0x40;
      size = 48;
      align = 4;
      bytes = sum_program;
    })
    ∷ memory (record {
      name = "data";
      may_write = true;
      base = 0x108;
      size = 8;
      align = 8;
      bytes = replicate 8 0;
    })
    ∷ []

register_after : ℕ → Ending → Result ℕ
unfolding get_register RegFile.read_register
register_after i (ended true p) = get_register i p
register_after i (ended false p) = throw (illegal_instruction "abnormal")
register_after i Ending.undefined = Base.Result.undefined
register_after i (out_of_fuel p) = throw (illegal_instruction "fuel")

-- Register 5 after the run, which takes 40 cycles, one stage a cycle.
sum_one_stage_a_cycle : register_after 5 (run 40 false (initial sum_memories 0x40 false)) ≡ ok 24
unfolding register_after run initial Pipeline.initial Bus.add_client should_halt
    SysStatus.should_halt cycle bus_ticked count_cycle after_cycle Bus.clock_pulse
    Pipeline.propagate Pipeline.clock_pulse Pipeline.propagate_all Pipeline.clock_pulse_all
    Pipeline.stage_propagate Pipeline.stage_clock_pulse Fetch.propagate Fetch.fetch_word
    Fetch.accept_word Fetch.on_exception Fetch.clock_pulse Fetch.advance Fetch.count_down
    Decode.propagate Decode.clock_pulse Decode.issue Decode.bypass Decode.has_hazard
    Decode.instruction_uses_rs2 Execute.propagate Execute.clock_pulse Execute.execute_instruction
    Execute.next_instruction Execute.source_value Execute.forward Execute.ex_stage_can_forward
    Execute.operand_a Execute.operand_b Execute.int64_sum Execute.jump_target Execute.adjust_result
    Execute.evaluate_branch Execute.compute_pc_relative_target Access.propagate Access.clock_pulse
    Access.operate WriteBack.propagate WriteBack.clock_pulse
    MemoryControl.initial_instruction_memory MemoryControl.initial_data_memory
    MemoryControl.set_instruction_size MemoryControl.set_instruction_address MemoryControl.get_value
    MemoryControl.set_data_size MemoryControl.set_data_address MemoryControl.set_data_in
    MemoryControl.set_read_enable MemoryControl.set_write_enable MemoryControl.get_data_out
    MemoryControl.data_clock_pulse Bus.read Bus.write Bus.find_client Bus.client_contains
    Bus.client_read Bus.client_write Memory.contains Memory.can_access Memory.read_data
    Memory.write_data Memory.Bytes.load Memory.Bytes.store Serial.contains Serial.read Serial.write
    SysStatus.contains SysStatus.read SysStatus.write Alu.set_a Alu.set_b Alu.set_op Alu.compute
    Alu.get_result Decoder.to_opcode Decoder.set_instruction_word Decoder.get_opcode Decoder.get_rs1
    Decoder.get_rs2 Decoder.get_rd Decoder.get_funct3 Decoder.get_funct7 Decoder.type_of_opcode
    Decoder.get_instruction_type Decoder.sign_extend Decoder.get_immediate_i Decoder.get_immediate_s
    Decoder.get_immediate_b Decoder.get_immediate_u Decoder.get_immediate_j
    Decoder.immediate_of_type Decoder.get_immediate Control.op_alu_op Control.op_imm_alu_op
    Control.op_32_alu_op Control.op_imm_32_alu_op Control.load_size Control.store_size
    Control.signals Control.set_from_instruction RegFile.initial RegFile.read_register
    RegFile.write_register RegFile.get_read_data1 RegFile.get_read_data2 RegFile.clock_pulse
    get_register verdict
sum_one_stage_a_cycle = refl

-- The same, pipelined, with one stall.
sum_pipelined : register_after 5 (run 14 false (initial sum_memories 0x40 true)) ≡ ok 24
unfolding register_after run initial Pipeline.initial Bus.add_client should_halt
    SysStatus.should_halt cycle bus_ticked count_cycle after_cycle Bus.clock_pulse
    Pipeline.propagate Pipeline.clock_pulse Pipeline.propagate_all Pipeline.clock_pulse_all
    Pipeline.stage_propagate Pipeline.stage_clock_pulse Fetch.propagate Fetch.fetch_word
    Fetch.accept_word Fetch.on_exception Fetch.clock_pulse Fetch.advance Fetch.count_down
    Decode.propagate Decode.clock_pulse Decode.issue Decode.bypass Decode.has_hazard
    Decode.instruction_uses_rs2 Execute.propagate Execute.clock_pulse Execute.execute_instruction
    Execute.next_instruction Execute.source_value Execute.forward Execute.ex_stage_can_forward
    Execute.operand_a Execute.operand_b Execute.int64_sum Execute.jump_target Execute.adjust_result
    Execute.evaluate_branch Execute.compute_pc_relative_target Access.propagate Access.clock_pulse
    Access.operate WriteBack.propagate WriteBack.clock_pulse
    MemoryControl.initial_instruction_memory MemoryControl.initial_data_memory
    MemoryControl.set_instruction_size MemoryControl.set_instruction_address MemoryControl.get_value
    MemoryControl.set_data_size MemoryControl.set_data_address MemoryControl.set_data_in
    MemoryControl.set_read_enable MemoryControl.set_write_enable MemoryControl.get_data_out
    MemoryControl.data_clock_pulse Bus.read Bus.write Bus.find_client Bus.client_contains
    Bus.client_read Bus.client_write Memory.contains Memory.can_access Memory.read_data
    Memory.write_data Memory.Bytes.load Memory.Bytes.store Serial.contains Serial.read Serial.write
    SysStatus.contains SysStatus.read SysStatus.write Alu.set_a Alu.set_b Alu.set_op Alu.compute
    Alu.get_result Decoder.to_opcode Decoder.set_instruction_word Decoder.get_opcode Decoder.get_rs1
    Decoder.get_rs2 Decoder.get_rd Decoder.get_funct3 Decoder.get_funct7 Decoder.type_of_opcode
    Decoder.get_instruction_type Decoder.sign_extend Decoder.get_immediate_i Decoder.get_immediate_s
    Decoder.get_immediate_b Decoder.get_immediate_u Decoder.get_immediate_j
    Decoder.immediate_of_type Decoder.get_immediate Control.op_alu_op Control.op_imm_alu_op
    Control.op_32_alu_op Control.op_imm_32_alu_op Control.load_size Control.store_size
    Control.signals Control.set_from_instruction RegFile.initial RegFile.read_register
    RegFile.write_register RegFile.get_read_data1 RegFile.get_read_data2 RegFile.clock_pulse
    get_register verdict
sum_pipelined = refl

-- A program of nothing but the end marker.
abbrev marker_memories : List Client
marker_memories =
    memory (record {
      name = "text";
      may_write = false;
      base = 0x40;
      size = 4;
      align = 4;
      bytes = 0xff ∷ 0xcc ∷ 0xff ∷ 0xdd ∷ [];
    })
    ∷ []

abbrev marker_processor : Processor
marker_processor = initial marker_memories 0x40 true

marker_read :
    Bus.read word 0x40 marker_processor.pipeline.bus
    ≡ returns test_end_marker (record (marker_processor.pipeline.bus) { bytes_read = 4 })
unfolding Bus.read Bus.find_client Bus.client_contains Bus.client_read initial Bus.add_client
    Memory.contains Memory.can_access Memory.read_data Memory.Bytes.load Pipeline.initial
marker_read = refl

run_ends_after_marker_example : Finishes (run 6 true marker_processor)
unfolding initial Bus.add_client Pipeline.initial
run_ends_after_marker_example =
    run_ends_after_marker 6 true marker_processor
      (record (marker_processor.pipeline.bus) { bytes_read = 4 }) (omega arith) refl refl
      marker_read

-- The status device of the sum program's processor, which has two memories and the serial port
-- before it on the bus.
abbrev sum_processor : Processor
sum_processor = initial sum_memories 0x40 false

abbrev idle_status : SysStatus.SysStatus
idle_status = record { base = 0x270; should_halt_flag = false }

status_found :
    Bus.find_client 0x278 sum_processor.pipeline.bus.clients ≡ some (3, Bus.sys_status idle_status)
unfolding initial Bus.add_client Pipeline.initial Bus.find_client Bus.client_contains
    Memory.contains Serial.contains SysStatus.contains
status_found = refl

halt_request-run_example :
    (bus : MemoryBus) × (Bus.write byte 0x278 1 sum_processor.pipeline.bus ≡ returns tt bus)
    × ((fuel : ℕ) (test_mode : Bool)
        → run fuel test_mode (with_bus bus sum_processor) ≡ ended true (with_bus bus sum_processor))
unfolding initial
halt_request-run_example = halt_request-run byte 1 sum_processor idle_status (inl refl) status_found
