-- ===== src/Stages.antt =====
-- src/stages.h: the pipeline registers, the control lines between the stages, and the fields of
-- each stage. The stages hold references to what they share, so all of it is one record, on which
-- the children's actions work: `Fetch`, `Decode`, `Execute`, `Access` and `WriteBack`.
-- `debugMode` is off: the decoder's printing of each instruction is not part of the record.
pub mod Bounds
pub mod Fetch
pub mod Decode
pub mod Execute
pub mod Access
pub mod WriteBack
pub mod Forwarding
pub mod Branches
pub mod EndMarker
pub mod WellFormed
mod Tests
use ca.Base.{ℕ, Bool, false, Outcome, Action, returns, throws, Exception}
use ca.Base
use ca.Base.Int.{ℤ, pos}
use ca.Alu.{Alu}
use ca.Decoder.{InstructionDecoder, Opcode}
use ca.RegFile.{RegisterFile}
use ca.Bus.{MemoryBus}
use ca.MemoryControl.{InstructionMemory, DataMemory}
use ca.Control.{ControlSignals, no_signals}

-- addi r0, r0, 0
abbrev pub nop_instruction : ℕ
nop_instruction = 0x13

pub record PipelineControl : Type 0 where
  pub stall_fetch : Bool
  pub insert_decode_bubble : Bool
  pub flush_fetch : Bool
  pub flush_decode : Bool

-- What `reset` leaves, and the initial value.
abbrev pub reset_control : PipelineControl
reset_control = record {
  stall_fetch = false;
  insert_decode_bubble = false;
  flush_fetch = false;
  flush_decode = false;
}

pub record IfId : Type 0 where
  pub pc : ℕ
  pub instruction_word : ℕ

pub record IdEx : Type 0 where
  pub pc : ℕ
  pub read_data1 : ℕ
  pub read_data2 : ℕ
  pub immediate : ℤ
  pub rd : ℕ
  pub rs1 : ℕ
  pub rs2 : ℕ
  pub opcode : Opcode
  pub funct3 : ℕ
  pub control : ControlSignals

-- The initial value, which a bubble has too.
abbrev pub empty_id_ex : IdEx
empty_id_ex = record {
  pc = 0;
  read_data1 = 0;
  read_data2 = 0;
  immediate = pos 0;
  rd = 0;
  rs1 = 0;
  rs2 = 0;
  opcode = Opcode.op;
  funct3 = 0;
  control = no_signals;
}

pub record ExM : Type 0 where
  pub pc : ℕ
  pub alu_result : ℕ
  pub write_data : ℕ
  pub rd : ℕ
  pub control : ControlSignals

pub record MWb : Type 0 where
  pub pc : ℕ
  pub alu_result : ℕ
  pub mem_data : ℕ
  pub rd : ℕ
  pub control : ControlSignals

pub record FetchStage : Type 0 where
  pub instruction_memory : InstructionMemory
  pub fetch_pc : ℕ
  pub fetched_instruction : ℕ
  pub end_marker_seen : Bool
  pub end_marker_countdown : ℕ
  pub end_marker_pc : ℕ

pub record DecodeStage : Type 0 where
  pub pc : ℕ
  pub instruction_word : ℕ
  pub decoded_control : ControlSignals
  pub read_data1 : ℕ
  pub read_data2 : ℕ

pub record ExecuteStage : Type 0 where
  pub alu : Alu
  pub pc_write_enable : Bool
  pub next_pc : ℕ
  pub pc : ℕ
  pub alu_result : ℕ
  pub write_data : ℕ
  pub next_rd : ℕ
  pub next_control : ControlSignals

pub record MemoryStage : Type 0 where
  pub data_memory : DataMemory
  pub pc : ℕ
  pub alu_result : ℕ
  pub mem_data : ℕ
  pub next_rd : ℕ
  pub next_control : ControlSignals

-- The class Pipeline, with the PC, the register file, the decoder and the bus that the processor
-- lends it. The write-back stage has no fields of its own.
pub record Pipeline : Type 0 where
  pub pipelining : Bool
  pub current_stage : ℕ
  pub n_instr_issued : ℕ
  pub n_instr_completed : ℕ
  pub n_stalls : ℕ
  pub fetch : FetchStage
  pub decode : DecodeStage
  pub execute : ExecuteStage
  pub access : MemoryStage
  pub if_id : IfId
  pub id_ex : IdEx
  pub ex_m : ExM
  pub m_wb : MWb
  pub control : PipelineControl
  pub pc : ℕ
  pub regfile : RegisterFile
  pub decoder : InstructionDecoder
  pub bus : MemoryBus

abbrev pub Step : Type 0
Step = Action Pipeline (Unit {0})

-- A call on the bus, within the pipeline.
abbrev pub on_bus : {A : Type 0} → Action MemoryBus A → Action Pipeline A
on_bus m p = elim (m p.bus) [
  | returns a b ↦ returns a (record p { bus = b })
  | throws e b ↦ throws e (record p { bus = b })
  | Base.Outcome.undefined ↦ Base.Outcome.undefined
]

-- `try` with a handler for every exception.
abbrev pub catch :
    {A : Type 0} → Action Pipeline A → (Exception → Action Pipeline A) → Action Pipeline A
catch m h p = elim (m p) [
  | returns a q ↦ returns a q
  | throws e q ↦ h e q
  | Base.Outcome.undefined ↦ Base.Outcome.undefined
]
