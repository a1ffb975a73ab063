-- ===== src/Processor/Programs/Tests.antt =====
-- A program with a jump and a forwarded result, and one whose last instruction waits for a load.
use ca.Base.{ℕ, ◌≡◌, refl, arith, true, false, List, [], ◌∷◌, returns, inl, replicate}
use ca.Alu
use ca.Decoder
use ca.Decoder.{get_immediate}
use ca.RegFile
use ca.RegFile.Laws.{initial-IsComplete, written, value}
use ca.RegFile.{RegisterFile}
use ca.Memory
use ca.Memory.{word}
use ca.MemoryControl
use ca.Control
use ca.SysStatus
use ca.Bus
use ca.Bus.{MemoryBus, Client, memory, serial, sys_status}
use ca.Stages.Execute
use ca.Stages.Decode
use ca.Pipeline.Instruction.{instruction, execute_word}
use ca.Pipeline.SameMemory.{SameMemory}
use ca.Pipeline.Text.{Text, IsLegal, Holds, Holds-SameMemory}
use ca.Pipeline.Ends.{Final}
use ca.Pipeline.Completes.{Completes, step, last_two}
use ca.Pipeline.Overlapped.CutShort.{IsCutShort}
use ca.Processor
use ca.Processor.{Processor, run}
use ca.Processor.Programs.{EndsAs, run-Completes, run-IsCutShort}
use ca.Processor.Programs.Texts.{word_at, All, at_words, IsReadable, IsInstruction, IsLegal-text}

-- jal r0, 8; addi r1, r0, 1; addi r1, r0, 5; addi r2, r1, 7; the end marker.
abbrev jump_entries : List (ℕ × ℕ)
jump_entries =
    (0x40, 0x0080006f) ∷ (0x44, 0x00100093) ∷ (0x48, 0x00500093) ∷ (0x4c, 0x00708113) ∷ []

abbrev jump_text : Text
jump_text = record { words = word_at jump_entries; stop = 0x50; status = 2 }

abbrev jump_memory : Client
jump_memory = memory (record {
  name = "text";
  may_write = false;
  base = 0x40;
  size = 20;
  align = 4;
  bytes =
      0x6f ∷ 0x00 ∷ 0x80 ∷ 0x00 ∷ 0x93 ∷ 0x00 ∷ 0x10 ∷ 0x00 ∷ 0x93 ∷ 0x00 ∷ 0x50 ∷ 0x00 ∷ 0x13
      ∷ 0x81 ∷ 0x70 ∷ 0x00 ∷ 0xff ∷ 0xcc ∷ 0xff ∷ 0xdd ∷ [];
})

abbrev jump_bus : MemoryBus
jump_bus = record {
  clients =
      jump_memory
      ∷ serial (record { base = 0x200 })
      ∷ sys_status (record { base = 0x270; should_halt_flag = false })
      ∷ [];
  bytes_read = 0;
  bytes_written = 0;
  cerr = [];
}

readable : All (IsReadable jump_bus) jump_entries
unfolding Bus.read Bus.find_client Bus.client_contains Bus.client_read Memory.contains
    Memory.can_access Memory.read_data Memory.Bytes.load
readable = ((_, refl), ((_, refl), ((_, refl), ((_, refl), tt))))

jump_entries_legal : All IsInstruction jump_entries
unfolding get_immediate Decoder.get_instruction_type Decoder.type_of_opcode Decoder.get_opcode
    Decoder.to_opcode Decoder.immediate_of_type Decoder.get_immediate_i Decoder.get_immediate_j
    Decoder.sign_extend
jump_entries_legal =
    ((refl, (_, refl)), ((refl, (_, refl)), ((refl, (_, refl)), ((refl, (_, refl)), tt))))

jump_text-IsLegal : IsLegal jump_text
jump_text-IsLegal = IsLegal-text jump_entries 0x50 2 jump_entries_legal

jump_bus-Holds : (b : MemoryBus) → SameMemory jump_bus b → Holds jump_text b
unfolding Bus.read Bus.find_client Bus.client_contains Bus.client_read Memory.contains
    Memory.can_access Memory.read_data Memory.Bytes.load SysStatus.should_halt
jump_bus-Holds b same =
    Holds-SameMemory jump_text jump_bus b same
      (λ a w e. at_words (IsReadable jump_bus) jump_entries a w readable e, (_, refl), refl)

-- The bus after so many bytes of instructions were read.
abbrev read_so_far : ℕ → MemoryBus
read_so_far n = record jump_bus { bytes_read = n }

abbrev with_registers : List ℕ → RegisterFile
with_registers values = record RegFile.initial { registers = values }

-- lw r1, 0x40(r0); add r2, r1, r1; the end marker.
abbrev load_entries : List (ℕ × ℕ)
load_entries = (0x40, 0x04002083) ∷ (0x44, 0x00108133) ∷ []

abbrev load_text : Text
load_text = record { words = word_at load_entries; stop = 0x48; status = 2 }

abbrev load_memory : Client
load_memory = memory (record {
  name = "text";
  may_write = false;
  base = 0x40;
  size = 12;
  align = 4;
  bytes = 0x83 ∷ 0x20 ∷ 0x00 ∷ 0x04 ∷ 0x33 ∷ 0x81 ∷ 0x10 ∷ 0x00 ∷ 0xff ∷ 0xcc ∷ 0xff ∷ 0xdd ∷ [];
})

abbrev load_bus : MemoryBus
load_bus = record jump_bus {
  clients =
      load_memory
      ∷ serial (record { base = 0x200 })
      ∷ sys_status (record { base = 0x270; should_halt_flag = false })
      ∷ [];
}

-- Each instruction of the two texts that is executed.
executed :
    (instruction 0x40 RegFile.initial jump_bus ≡ returns (0x48, RegFile.initial) (read_so_far 4))
    × (instruction 0x48 RegFile.initial (read_so_far 4)
        ≡ returns (0x4c, with_registers (5 ∷ replicate 30 0)) (read_so_far 8))
    × (instruction 0x4c (with_registers (5 ∷ replicate 30 0)) (read_so_far 8)
        ≡ returns (0x50, with_registers (5 ∷ 12 ∷ replicate 29 0)) (read_so_far 12))
    × (instruction 0x40 RegFile.initial load_bus
        ≡ returns
            (0x44, with_registers (0x04002083 ∷ replicate 30 0))
            (record load_bus { bytes_read = 8 }))
unfolding instruction execute_word written value Bus.add_client Execute.propagate
    Execute.execute_instruction Execute.next_instruction Execute.source_value Execute.forward
    Execute.ex_stage_can_forward Execute.operand_a Execute.operand_b Execute.int64_sum
    Execute.jump_target Execute.adjust_result Execute.evaluate_branch
    Execute.compute_pc_relative_target MemoryControl.initial_instruction_memory
    MemoryControl.initial_data_memory MemoryControl.set_instruction_size
    MemoryControl.set_instruction_address MemoryControl.get_value MemoryControl.set_data_size
    MemoryControl.set_data_address MemoryControl.set_data_in MemoryControl.set_read_enable
    MemoryControl.set_write_enable MemoryControl.get_data_out MemoryControl.data_clock_pulse
    Bus.read Bus.find_client Bus.client_contains Bus.client_read Bus.client_write Memory.contains
    Memory.can_access Memory.read_data Memory.write_data Memory.Bytes.load Memory.Bytes.store
    Alu.set_a Alu.set_b Alu.set_op Alu.compute Alu.get_result Decoder.to_opcode
    Decoder.set_instruction_word Decoder.get_opcode Decoder.get_rs1 Decoder.get_rs2 Decoder.get_rd
    Decoder.get_funct3 Decoder.get_funct7 Decoder.type_of_opcode Decoder.get_instruction_type
    Decoder.sign_extend Decoder.get_immediate_i Decoder.get_immediate_s Decoder.get_immediate_b
    Decoder.get_immediate_u Decoder.get_immediate_j Decoder.immediate_of_type Decoder.get_immediate
    Control.op_alu_op Control.op_imm_alu_op Control.op_32_alu_op Control.op_imm_32_alu_op
    Control.load_size Control.store_size Control.signals Control.set_from_instruction
    RegFile.initial RegFile.write_register RegFile.get_read_data1 RegFile.get_read_data2
    RegFile.read_register
executed = (refl, refl, refl, refl)

jump-Completes :
    Completes jump_text 3 0x40 RegFile.initial jump_bus
      (with_registers (5 ∷ 12 ∷ replicate 29 0))
      (read_so_far 12)
unfolding Decode.has_hazard Decode.instruction_uses_rs2 Control.set_from_instruction Control.signals
    Control.op_imm_alu_op Decoder.get_opcode Decoder.to_opcode Decoder.get_funct3 Decoder.get_funct7
jump-Completes =
    step 2 0x40 0x48 _ _ _ _ _ _ ((_, refl), (_, refl), (_, refl)) (jump_bus-Holds _ (refl, refl))
      executed.0
      (last_two 0x48 _ _ _ _ _ _ _ _ refl refl refl refl refl (jump_bus-Holds _ (refl, refl))
        executed.1 (jump_bus-Holds _ (refl, refl)) executed.2 (jump_bus-Holds _ (refl, refl)))

abbrev jump_processor : Processor
jump_processor = Processor.initial (jump_memory ∷ []) 0x40 true

run-Completes_example :
    EndsAs
      (Final (with_registers (5 ∷ 12 ∷ replicate 29 0)) (read_so_far 12))
      true
      (run 21 true jump_processor)
unfolding Processor.initial Bus.add_client
run-Completes_example =
    run-Completes jump_text 3 21 0x40 RegFile.initial (with_registers (5 ∷ 12 ∷ replicate 29 0))
      jump_bus (read_so_far 12) true true jump_processor jump_text-IsLegal initial-IsComplete refl
      refl (omega arith) jump-Completes

load-IsReadable : All (IsReadable load_bus) load_entries
unfolding Bus.read Bus.find_client Bus.client_contains Bus.client_read Memory.contains
    Memory.can_access Memory.read_data Memory.Bytes.load
load-IsReadable = ((_, refl), ((_, refl), tt))

load_entries_legal : All IsInstruction load_entries
unfolding get_immediate Decoder.get_instruction_type Decoder.type_of_opcode Decoder.get_opcode
    Decoder.to_opcode Decoder.immediate_of_type Decoder.get_immediate_i Decoder.sign_extend
load_entries_legal = ((refl, (_, refl)), ((refl, (_, refl)), tt))

load_bus-Holds : (b : MemoryBus) → SameMemory load_bus b → Holds load_text b
unfolding Bus.read Bus.find_client Bus.client_contains Bus.client_read Memory.contains
    Memory.can_access Memory.read_data Memory.Bytes.load SysStatus.should_halt
load_bus-Holds b same =
    Holds-SameMemory load_text load_bus b same
      (λ a w e. at_words (IsReadable load_bus) load_entries a w load-IsReadable e, (_, refl), refl)

load_text-IsCutShort : IsCutShort load_text 0x40 0x04002083 0x44
unfolding Decode.has_hazard Decode.instruction_uses_rs2 Control.set_from_instruction Control.signals
    Decoder.get_opcode Decoder.to_opcode Decoder.get_rd Decoder.get_rs1
load_text-IsCutShort = record {
  between = 0x00108133;
  here = refl;
  behind = refl;
  stops = refl;
  why = inl refl;
}

-- Register 2 keeps its first value.
run-IsCutShort_example :
    EndsAs
      (Final (with_registers (0x04002083 ∷ replicate 30 0)) (record load_bus { bytes_read = 8 }))
      true
      (run 8 true (Processor.initial (load_memory ∷ []) 0x40 true))
unfolding Processor.initial Bus.add_client
run-IsCutShort_example =
    run-IsCutShort load_text 8 0x40 0x04002083 0x44 RegFile.initial
      (with_registers (0x04002083 ∷ replicate 30 0)) load_bus (record load_bus { bytes_read = 8 })
      true (Processor.initial (load_memory ∷ []) 0x40 true)
      (IsLegal-text load_entries 0x48 2 load_entries_legal) initial-IsComplete refl refl
      (omega arith) load_text-IsCutShort (load_bus-Holds load_bus (refl, refl)) executed.3
      (load_bus-Holds _ (refl, refl))
