-- ===== src/Pipeline/Overlapped/Advance.antt =====
-- From a state of the pipeline to the one that stands for the state behind the next instruction.
use ca.Base.{
  ℕ, ◌≡◌, sym, ap, subst, ◌∙◌, arith, Bool, true, false, returns, some, ◌==◌, inl, inr, Bool-cases,
  if_true, if_false,
}
use ca.Memory.{word}
use ca.Decoder.{get_immediate}
use ca.Decoder.Fields.{decoder}
use ca.RegFile.{RegisterFile}
use ca.Bus
use ca.Bus.{MemoryBus}
use ca.Control.Laws.{set_from_instruction-IsConsistent}
use ca.Stages.{Pipeline}
use ca.Stages.Decode.{has_hazard}
use ca.Stages.Fetch.{test_end_marker}
use ca.Pipeline.OneStage.{cycle}
use ca.Pipeline.Instruction.{
  instruction, Effects, instruction_inv, execute_word-Effects, execute_word,
}
use ca.Pipeline.Overlapped.FetchCycle.{IsRunning}
use ca.Pipeline.Overlapped.Whole.{Succeeds, clocked, cycle_lem}
use ca.Pipeline.Overlapped.After.{taken_after, stalled_after}
use ca.Pipeline.SameMemory.{SameMemory, SameMemory-sym, read-SameMemory}
use ca.Pipeline.Text.{Text, IsLegal, Holds, next}
use ca.Pipeline.Overlapped.Represents.{
  Behind, Issued, Executing, Front, executing, decoding, fetching, Represents, fetched_at,
  empty-IsBubble, IsBubble,
}
use ca.Pipeline.Overlapped.Steps.{issued_after}
use ca.Pipeline.Overlapped.Fetched.{word_done, word_after, word-IsRunning, word-Goes}
use ca.Pipeline.Overlapped.Executes.{Done, done}

-- The instruction at an address of the text is the word that the text has there.
pub Effects-at :
    (text : Text) (pc w pc' : ℕ) (rf rf' : RegisterFile) (bus bus' : MemoryBus)
    → Holds text bus
    → text.words pc ≡ some w
    → instruction pc rf bus ≡ returns (pc', rf') bus'
    → (b : MemoryBus) × SameMemory b bus × Effects pc w rf b pc' rf' bus'
Effects-at text pc w pc' rf rf' bus bus' holds at_pc e =
    let (w', b, read, unmarked, executed) = instruction_inv pc pc' rf rf' bus bus' e in
    let (c, read') = holds.0 pc w at_pc in
    let same : w' ≡ w = ground arith in
    (
      b,
      SameMemory-sym bus b (read-SameMemory word pc w' bus b read),
      execute_word-Effects pc w pc' rf rf' b bus'
          (subst (λ v. execute_word pc rf v b ≡ returns (pc', rf') bus') same executed),
    )

-- Loads are the instructions whose result comes from memory.
pub issued-loads :
    (p : Pipeline) (pc w : ℕ)
    → Issued p pc w
    → p.id_ex.control.mem_to_reg ≡ p.id_ex.control.mem_read
issued-loads p pc w issue =
    subst (λ i. i.control.mem_to_reg ≡ i.control.mem_read) (sym issue.in_execute)
      (set_from_instruction-IsConsistent (decoder w)).loads_write_back

module _ (text : Text) (legal : IsLegal text) (p : Pipeline) (rf : RegisterFile) (bus : MemoryBus)
    (running : IsRunning p) (behind : Behind text p rf bus) (holds : Holds text bus) where
  -- Behind an instruction that is no transfer: the next one was fetched, and is decoded unless it
  -- waits for a load.
  next-Front :
      (pc w : ℕ) (s : Succeeds p) (fetch_bus : MemoryBus)
      (read : Bus.read word p.pc p.bus ≡ returns w fetch_bus)
      (unmarked : (w == test_end_marker) ≡ false)
      → s.fetch ≡ word_done p w fetch_bus running read unmarked
      → s.executed.0.pc_write_enable ≡ false
      → Executing text p pc
      → text.words (next (next pc)) ≡ some w
      → Front text (clocked p s) (next pc)
  unfolding word_done
  next-Front pc w s fetch_bus read unmarked same stays front at_third =
      let word_of = λ (b : Bool) (h : has_hazard p.id_ex (decoder front.behind) ≡ b).
        ap (λ f. has_hazard p.id_ex (decoder f.instruction_word)) front.fetched ∙ h in
      elim (Bool-cases (has_hazard p.id_ex (decoder front.behind))) [
        | inl waits ↦
            let (no_issue, kept, new_pc) =
              stalled_after p s stays (ap (λ f. f.flush) same) (word_of true waits) in
            decoding (record {
              here = front.behind;
              at_pc = front.at_next;
              bubble = subst IsBubble (sym no_issue) empty-IsBubble;
              fetched = kept ∙ front.fetched;
              new_pc = new_pc ∙ front.new_pc;
            })
        | inr moves ↦
            let (fetched, new_pc) =
              word_after p s w fetch_bus running read unmarked same stays (word_of false moves) in
            executing (record {
              here = front.behind;
              behind = w;
              at_pc = front.at_next;
              at_next = at_third;
              issue =
                  issued_after text p rf bus (running.0) behind s (next pc) front.behind stays moves
                    (issued-loads p pc front.here front.issue) front.fetched;
              fetched = fetched ∙ ap (λ a. fetched_at a w) front.new_pc;
              new_pc = new_pc ∙ ap next front.new_pc;
            })
      ]

  -- Behind a transfer everything that was fetched is discarded.
  target-Front :
      (s : Succeeds p)
      → s.executed.0.pc_write_enable ≡ true
      → Front text (clocked p s) (s.executed.0.next_pc)
  target-Front s taken =
      let (no_issue, no_word, new_pc) = taken_after p s taken in
      fetching (record {
        bubble = subst IsBubble (sym no_issue) empty-IsBubble;
        fetched = no_word;
        new_pc = new_pc;
      })

  pub Executing-cycle :
      (pc w pc' : ℕ) (rf' : RegisterFile) (bus' : MemoryBus)
      → Executing text p pc
      → text.words (next (next pc)) ≡ some w
      → instruction pc rf bus ≡ returns (pc', rf') bus'
      → (q : Pipeline) × (cycle p ≡ returns tt q) × Represents text q pc' rf' bus'
  unfolding word_done
  Executing-cycle pc w pc' rf' bus' front at_third e =
      let at = ap text.words front.new_pc ∙ at_third in
      let (fetch_bus, read) = behind.holds.0 p.pc w at in
      let unmarked = legal.unmarked p.pc w at in
      let (imm, decodes) = legal.decodes (next pc) front.behind front.at_next in
      let (b, same, effects) =
        Effects-at text pc front.here pc' rf rf' bus bus' holds front.at_pc e in
      let x : Done text p rf bus (running.0) behind holds pc front.here front.issue pc' rf' b bus'
          same effects (word_done p w fetch_bus running read unmarked) imm =
        done text p rf bus (running.0) behind holds pc front.here front.issue pc' rf' b bus' same
          effects (word_done p w fetch_bus running read unmarked) imm
          (read-SameMemory word p.pc w p.bus fetch_bus read)
          (ap (λ f. get_immediate (decoder f.instruction_word)) front.fetched ∙ decodes) in
      let s = x.succeeds in
      let q = clocked p s in
      let front' : Front text q pc' =
        subst (Front text q) (sym x.transfer) (elim (Bool-cases s.executed.0.pc_write_enable) [
          | inl taken ↦ subst (Front text q) (sym (if_true _ _ taken)) (target-Front s taken)
          | inr stays ↦
              subst (Front text q) (sym (if_false _ _ stays))
                (next-Front pc w s fetch_bus read unmarked x.same_fetch stays front at_third)
        ]) in
      (
        q,
        cycle_lem p s (word-Goes p s w fetch_bus running read unmarked x.same_fetch),
        record {
          running = word-IsRunning p s w fetch_bus running read unmarked x.same_fetch;
          behind = x.behind_lem;
          front = front';
        },
      )
