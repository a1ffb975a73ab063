-- ===== src/Pipeline/Tests.antt =====
-- Two instructions, from the first state of the pipeline.
use ca.Base.{◌≡◌, refl, false, arith, returns, Returns, Leaves, [], ◌∷◌, replicate}
use ca.Alu
use ca.Decoder
use ca.RegFile
use ca.RegFile.Laws.{initial-IsComplete, written, value}
use ca.RegFile.{RegisterFile}
use ca.Memory
use ca.MemoryControl
use ca.Control
use ca.Bus
use ca.Bus.{MemoryBus, memory}
use ca.Stages.{Pipeline}
use ca.Stages.Execute
use ca.Pipeline
use ca.Pipeline.OneStage.{IsAt, cycle}
use ca.Pipeline.WellFormed.{cycle-IsWellFormed, initial-IsWellFormed}
use ca.Stages.WellFormed.{IsWellFormed}
use ca.Pipeline.Instruction.{instruction, execute_word}
use ca.Pipeline.Program.{instructions, cycles, cycles-instructions}

-- addi r1, r0, 5; addi r2, r0, 7 at 0x40.
abbrev text_bus : MemoryBus
text_bus = record {
  clients =
      memory (record {
        name = "text";
        may_write = false;
        base = 0x40;
        size = 8;
        align = 4;
        bytes = 0x93 ∷ 0x00 ∷ 0x50 ∷ 0x00 ∷ 0x13 ∷ 0x01 ∷ 0x70 ∷ 0x00 ∷ [];
      })
      ∷ [];
  bytes_read = 0;
  bytes_written = 0;
  cerr = [];
}

abbrev first_state : Pipeline
first_state = Pipeline.initial false 0x40 RegFile.initial text_bus

abbrev bus_after : MemoryBus
bus_after = record text_bus { bytes_read = 8 }

abbrev registers_after : RegisterFile
registers_after = record RegFile.initial { registers = 5 ∷ 7 ∷ replicate 29 0 }

both_executed :
    instructions 2 0x40 RegFile.initial text_bus ≡ returns (0x48, registers_after) bus_after
unfolding instructions instruction execute_word written value Bus.add_client Execute.propagate
    Execute.execute_instruction Execute.next_instruction Execute.source_value Execute.forward
    Execute.ex_stage_can_forward Execute.operand_a Execute.operand_b Execute.int64_sum
    Execute.jump_target Execute.adjust_result Execute.evaluate_branch
    Execute.compute_pc_relative_target MemoryControl.initial_instruction_memory
    MemoryControl.initial_data_memory MemoryControl.set_instruction_size
    MemoryControl.set_instruction_address MemoryControl.get_value MemoryControl.set_data_size
    MemoryControl.set_data_address MemoryControl.set_data_in MemoryControl.set_read_enable
    MemoryControl.set_write_enable MemoryControl.get_data_out MemoryControl.data_clock_pulse
    Bus.read Bus.find_client Bus.client_contains Bus.client_read Bus.client_write Memory.contains
    Memory.can_access Memory.read_data Memory.write_data Memory.Bytes.load Memory.Bytes.store
    Alu.set_a Alu.set_b Alu.set_op Alu.compute Alu.get_result Decoder.to_opcode
    Decoder.set_instruction_word Decoder.get_opcode Decoder.get_rs1 Decoder.get_rs2 Decoder.get_rd
    Decoder.get_funct3 Decoder.get_funct7 Decoder.type_of_opcode Decoder.get_instruction_type
    Decoder.sign_extend Decoder.get_immediate_i Decoder.get_immediate_s Decoder.get_immediate_b
    Decoder.get_immediate_u Decoder.get_immediate_j Decoder.immediate_of_type Decoder.get_immediate
    Control.op_alu_op Control.op_imm_alu_op Control.op_32_alu_op Control.op_imm_32_alu_op
    Control.load_size Control.store_size Control.signals Control.set_from_instruction
    RegFile.initial RegFile.write_register RegFile.get_read_data1 RegFile.get_read_data2
    RegFile.read_register
both_executed = refl

cycles-instructions_example :
    Returns
      (λ q.
        IsAt 0 q
        × (q.pc ≡ 0x48)
        × (q.regfile.registers ≡ registers_after.registers)
        × (q.bus ≡ bus_after))
      (cycles 2 first_state)
unfolding Pipeline.initial
cycles-instructions_example =
    cycles-instructions 2 first_state 0x48 registers_after bus_after (refl, refl, refl)
      initial-IsComplete both_executed

cycle-IsWellFormed_example : Leaves IsWellFormed (cycle first_state)
unfolding RegFile.initial
cycle-IsWellFormed_example =
    cycle-IsWellFormed first_state
      (initial-IsWellFormed false 0x40 RegFile.initial text_bus refl (omega arith))
