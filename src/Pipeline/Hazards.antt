-- ===== src/Pipeline/Hazards.antt =====
-- src/pipeline.cc with pipelining: the cycles that hold back an instruction, from what the
-- instructions on their way are.
pub mod Cycle
mod Tests
use ca.Base.{
  ℕ, ◌+◌, ◌-◌, ◌%◌, ◌^◌, ◌≡◌, ◌≢◌, ◌⊎◌, inl, inr, refl, sym, ap, ◌∙◌, arith, Bool, true, false, not,
  ◌&&◌, ◌||◌, ok, returns, ◌==◌, if◌then◌else◌, u64, subst, bind, ◌↔◌,
}
use ca.Base.Int.{ℤ, pos, negsuc, ◌+ℤ◌, unsigned}
use ca.Alu.{Alu}
use ca.Memory.{word}
use ca.Decoder.{
  InstructionDecoder, op, op_32, load, store, branch, jal, get_opcode, get_rs1, get_rs2, get_rd,
  get_funct3, get_immediate,
}
use ca.Decoder.Fields.{decoder}
use ca.Control.{set_from_instruction, signals}
use ca.Bus
use ca.Bus.{MemoryBus}
use ca.Stages.{Pipeline, IdEx, empty_id_ex, nop_instruction}
use ca.Stages.WellFormed.{IsWellFormed, Carries, Carries-bound}
use ca.Stages.Fetch.{test_end_marker}
use ca.Stages.Decode.{has_hazard, instruction_uses_rs2}
use ca.Stages.Execute.{
  Executed, execute_instruction, next_instruction, jump_target, evaluate_branch,
  compute_pc_relative_target, forward,
}
use ca.Stages.Branches.{Condition, evaluate_branch_iff}
use ca.Pipeline.OneStage.{cycle}
use ca.Pipeline.Overlapped.FetchCycle.{IsRunning}
use ca.Pipeline.Overlapped.Fetched.{word_done, word-Goes}
use ca.Pipeline.Overlapped.Whole.{Succeeds, clocked, cycle_lem}
use ca.Pipeline.Overlapped.After.{stalled_after, taken_after}
use ca.Pipeline.Overlapped.Represents.{Accesses}
use ca.Pipeline.Overlapped.Program.{no_transfer}
use ca.Pipeline.Hazards.Cycle.{
  Works, IsIssued, source1, source2, after, cycle_after, stall_counted, transfer_counted, held_back,
  discarded,
}

-- An instruction word has a source register: the first one of every format, and the second one of
-- the formats that have two.
abbrev pub Reads : ℕ → ℕ → Type 0
Reads w r =
    (get_rs1 (decoder w) ≡ r)
    ⊎ ((get_rs2 (decoder w) ≡ r)
        × ((get_opcode (decoder w) ≡ op)
            ⊎ (get_opcode (decoder w) ≡ op_32)
            ⊎ (get_opcode (decoder w) ≡ store)
            ⊎ (get_opcode (decoder w) ≡ branch)))

load_signals :
    (d : InstructionDecoder)
    → get_opcode d ≡ load
    → let c = set_from_instruction d in (c.mem_read ≡ true) × ((c.is_branch || c.is_jump) ≡ false)
unfolding set_from_instruction signals
load_signals d e = rw e (refl, refl)

uses_second :
    (d : InstructionDecoder)
    → (get_opcode d ≡ op)
      ⊎ (get_opcode d ≡ op_32)
      ⊎ (get_opcode d ≡ store)
      ⊎ (get_opcode d ≡ branch)
    → instruction_uses_rs2 (get_opcode d) ≡ true
unfolding instruction_uses_rs2
uses_second d (inl e) = rw e refl
uses_second d (inr (inl e)) = rw e refl
uses_second d (inr (inr (inl e))) = rw e refl
uses_second d (inr (inr (inr e))) = rw e refl

waiting-has_hazard :
    (i : IdEx) (x w : ℕ)
    → IsIssued x i
    → get_opcode (decoder x) ≡ load
    → get_rd (decoder x) ≢ 0
    → Reads w (get_rd (decoder x))
    → has_hazard i (decoder w) ≡ true
unfolding has_hazard
waiting-has_hazard i x w issued loads nonzero (inl same) =
    ground (arith, load_signals (decoder x) loads, issued.control, issued.rd)
waiting-has_hazard i x w issued loads nonzero (inr (same, used)) =
    ground (
      arith,
      load_signals (decoder x) loads,
      issued.control,
      issued.rd,
      uses_second (decoder w) used,
    )

bubble-no_hazard : (i : IdEx) (d : InstructionDecoder) → i ≡ empty_id_ex → has_hazard i d ≡ false
unfolding has_hazard
bubble-no_hazard i d e = rw e refl

-- In pipelined mode, for a well-formed pipeline that meets no error and no end marker in this cycle:
-- if a load `x` into a register other than 0 is executed, and the decoded instruction reads that
-- register, then the cycle returns, the load moves on, the decoded instruction and the PC stay, a
-- bubble goes to the execute stage, a stall is counted and no issued instruction, and no instruction
-- has to wait again in the next cycle.
pub stalled_cycle :
    (p : Pipeline) (x : ℕ)
    → IsWellFormed p
    → IsRunning p
    → Works p
    → IsIssued x p.id_ex
    → get_opcode (decoder x) ≡ load
    → get_rd (decoder x) ≢ 0
    → Reads p.if_id.instruction_word (get_rd (decoder x))
    → (q : Pipeline) × (cycle p ≡ returns tt q)
      × (q.pc ≡ p.pc)
      × (q.if_id ≡ p.if_id)
      × (q.id_ex ≡ empty_id_ex)
      × (q.ex_m.rd ≡ get_rd (decoder x))
      × (q.ex_m.control ≡ set_from_instruction (decoder x))
      × (q.n_stalls ≡ u64 (p.n_stalls + 1))
      × (q.n_instr_issued ≡ p.n_instr_issued)
      × ((d : InstructionDecoder) → has_hazard q.id_ex d ≡ false)
stalled_cycle p x well running s issued loads nonzero reads =
    let q = after p well running s in
    let stays : s.executed.0.pc_write_enable ≡ false =
      no_transfer p.id_ex p.execute.alu (source1 p) (source2 p) s.executed
        (ap (λ c. c.is_branch || c.is_jump) issued.control ∙ (load_signals (decoder x) loads).1)
        s.executes in
    let waits = waiting-has_hazard p.id_ex x p.if_id.instruction_word issued loads nonzero reads in
    let (bubble, kept, same_pc) = held_back p well running s stays waits in
    let (stalls, count, rd, control) = stall_counted p well running s stays waits in
    (
      q,
      cycle_after p well running s,
      same_pc,
      kept,
      bubble,
      rd ∙ issued.rd,
      control ∙ issued.control,
      stalls,
      count,
      λ d. bubble-no_hazard q.id_ex d bubble,
    )
