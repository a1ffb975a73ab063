-- ===== src/Pipeline/Transfers.antt =====
-- src/pipeline.cc with pipelining: the cycles that discard instructions, from what the instruction
-- that is executed is.
use ca.Base.{ℕ, ◌≡◌, ◌⊎◌, inl, inr, refl, ap, ◌∙◌, arith, true, not, ◌&&◌, ok, returns}
use ca.Base.Int.{ℤ, pos, negsuc, ◌+ℤ◌, unsigned}
use ca.Alu.{Alu}
use ca.Decoder.{InstructionDecoder, branch, jal, get_opcode, get_funct3}
use ca.Decoder.Fields.{decoder}
use ca.Control.{set_from_instruction, signals}
use ca.Stages.{Pipeline, IdEx, empty_id_ex, nop_instruction}
use ca.Stages.WellFormed.{IsWellFormed}
use ca.Stages.Execute.{
  Executed, execute_instruction, next_instruction, jump_target, evaluate_branch,
  compute_pc_relative_target,
}
use ca.Stages.Branches.{Condition, evaluate_branch_iff}
use ca.Pipeline.OneStage.{cycle}
use ca.Pipeline.Overlapped.FetchCycle.{IsRunning}
use ca.Pipeline.Hazards.Cycle.{
  Works, IsIssued, source1, source2, after, cycle_after, transfer_counted, discarded,
}

-- An instruction word leads to its PC plus its immediate: a jump, or a branch on values that meet
-- its condition.
abbrev pub Transfers : ℕ → ℕ → ℕ → Type 0
Transfers w a b =
    (get_opcode (decoder w) ≡ jal)
    ⊎ ((get_opcode (decoder w) ≡ branch) × Condition (get_funct3 (decoder w)) a b)

-- The target that the stage computes is the integer sum, reduced to 64 bits.
target_lem : (pc : ℕ) (z : ℤ) → compute_pc_relative_target pc z ≡ unsigned 64 (pos pc +ℤ z)
unfolding compute_pc_relative_target
target_lem pc (pos n) = ground arith
target_lem pc (negsuc n) = ground arith

branch_leads :
    (i : IdEx) (alu : Alu) (a b : ℕ) (r : Executed × Alu)
    → (i.control.is_branch && not i.control.is_jump) ≡ true
    → evaluate_branch i.funct3 a b ≡ true
    → execute_instruction i alu a b ≡ ok r
    → (r.0.pc_write_enable ≡ true) × (r.0.next_pc ≡ compute_pc_relative_target i.pc i.immediate)
unfolding execute_instruction next_instruction
branch_leads i alu a b r branches taken e = ground arith

jump_leads :
    (i : IdEx) (alu : Alu) (a b : ℕ) (r : Executed × Alu)
    → i.control.is_jump ≡ true
    → i.opcode ≡ jal
    → execute_instruction i alu a b ≡ ok r
    → (r.0.pc_write_enable ≡ true) × (r.0.next_pc ≡ compute_pc_relative_target i.pc i.immediate)
unfolding execute_instruction next_instruction jump_target
jump_leads i alu a b r jumps same e = ground arith

transfer_signals :
    (d : InstructionDecoder)
    → (get_opcode d ≡ branch
        → let c = set_from_instruction d in (c.is_branch && not c.is_jump) ≡ true)
      × (get_opcode d ≡ jal → (set_from_instruction d).is_jump ≡ true)
unfolding set_from_instruction signals
transfer_signals d = (λ e. rw e refl, λ e. rw e refl)

transfer_leads :
    (p : Pipeline) (x : ℕ) (s : Works p)
    → IsIssued x p.id_ex
    → Transfers x (source1 p) (source2 p)
    → (s.executed.0.pc_write_enable ≡ true)
      × (s.executed.0.next_pc ≡ compute_pc_relative_target p.id_ex.pc p.id_ex.immediate)
transfer_leads p x s issued (inl jumps) =
    jump_leads p.id_ex p.execute.alu (source1 p) (source2 p) s.executed
      (ap (λ c. c.is_jump) issued.control ∙ (transfer_signals (decoder x)).1 jumps)
      (issued.opcode ∙ jumps) s.executes
transfer_leads p x s issued (inr (branches, met)) =
    branch_leads p.id_ex p.execute.alu (source1 p) (source2 p) s.executed
      (ap (λ c. c.is_branch && not c.is_jump) issued.control
        ∙ (transfer_signals (decoder x)).0 branches)
      (ap (λ f. evaluate_branch f (source1 p) (source2 p)) issued.funct3
        ∙ (evaluate_branch_iff (get_funct3 (decoder x)) (source1 p) (source2 p)).1 met)
      s.executes

-- In pipelined mode, for a well-formed pipeline that meets no error and no end marker in this cycle:
-- if a `jal` is executed, or a branch on forwarded values that meet the manual's condition, then the
-- cycle returns, the PC becomes the integer sum of the instruction's PC and its immediate, reduced to
-- 64 bits, the two instructions behind it are replaced by a nop and a bubble, and neither an issued
-- instruction nor a stall is counted.
pub flushed_cycle :
    (p : Pipeline) (x : ℕ)
    → IsWellFormed p
    → IsRunning p
    → Works p
    → IsIssued x p.id_ex
    → Transfers x (source1 p) (source2 p)
    → (q : Pipeline) × (cycle p ≡ returns tt q)
      × (q.pc ≡ unsigned 64 (pos p.id_ex.pc +ℤ p.id_ex.immediate))
      × (q.if_id ≡ record { pc = 0; instruction_word = nop_instruction })
      × (q.id_ex ≡ empty_id_ex)
      × (q.n_instr_issued ≡ p.n_instr_issued)
      × (q.n_stalls ≡ p.n_stalls)
flushed_cycle p x well running s issued transfers =
    let (leads, target) = transfer_leads p x s issued transfers in
    let (bubble, nop, new_pc) = discarded p well running s leads in
    let (stalls, count) = transfer_counted p well running s leads in
    (
      after p well running s,
      cycle_after p well running s,
      new_pc ∙ target ∙ target_lem p.id_ex.pc p.id_ex.immediate,
      nop,
      bubble,
      count,
      stalls,
    )
