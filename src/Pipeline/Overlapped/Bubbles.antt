-- ===== src/Pipeline/Overlapped/Bubbles.antt =====
-- The cycles in which a bubble is executed: the pipeline fills, and stands for the same state.
use ca.Base.{
  ℕ, ◌≡◌, refl, sym, ap, subst, ◌∙◌, arith, true, false, ok, returns, some, inl, inr, Bool-cases,
}
use ca.Base.Int.{ℤ, pos}
use ca.Memory.{word}
use ca.Decoder
use ca.Decoder.{InstructionDecoder, get_immediate, get_opcode, get_rs1, get_rs2}
use ca.Decoder.Fields.{decoder}
use ca.RegFile.{RegisterFile}
use ca.RegFile.Laws.{value, written}
use ca.Bus.{MemoryBus}
use ca.Stages.{Pipeline, IfId, IdEx, MWb, nop_instruction}
use ca.Stages.Decode.{has_hazard, bypass, instruction_uses_rs2}
use ca.Stages.Execute.{forward}
use ca.Stages.Forwarding.{commit_write_back}
use ca.Pipeline.OneStage.{cycle, issued}
use ca.Pipeline.Overlapped.FetchCycle.{IsRunning}
use ca.Pipeline.Overlapped.Whole.{FetchDone, Succeeds, clocked, cycle_lem}
use ca.Pipeline.Overlapped.After.{moved_after, dropped_after}
use ca.Pipeline.SameMemory.{SameMemory, read-SameMemory, SameMemory-sym}
use ca.Pipeline.Text.{Text, IsLegal, Holds, Holds-SameMemory, next}
use ca.Pipeline.Overlapped.Operands.{passed}
use ca.Pipeline.Overlapped.Represents.{
  Behind, IsBubble, Decoding, Executing, Fetching, fetched_at, nop_if_id, nop-IsBubble,
  empty-IsBubble, bubble_executes, bubble-Accesses,
}
use ca.Pipeline.Overlapped.Steps.{Ready, ready, Behind-after, issued_after}
use ca.Pipeline.Overlapped.Fetched.{word_done, word_after, word-IsRunning, word-Goes}

-- An instruction without a destination leaves the registers as they are.
pub discards :
    (m : MWb) (rf : RegisterFile) → m.rd ≡ 0 → (commit_write_back m rf).registers ≡ rf.registers
unfolding written
discards m rf e = ground arith

pub bubble-no_hazard : (i : IdEx) (d : InstructionDecoder) → IsBubble i → has_hazard i d ≡ false
unfolding has_hazard
bubble-no_hazard i d bubble = ground arith

pub nop_decodes : get_immediate (decoder nop_instruction) ≡ ok (pos 0)
unfolding get_immediate Decoder.get_instruction_type Decoder.type_of_opcode get_opcode
    Decoder.to_opcode Decoder.immediate_of_type Decoder.get_immediate_i Decoder.sign_extend
nop_decodes = refl

-- What is decoded behind a bubble.
abbrev decoded_word : Pipeline → IfId → ℤ → IdEx
decoded_word p f imm =
    let d = decoder f.instruction_word in
    record (issued f.pc f.instruction_word p.regfile imm) {
      read_data1 = bypass p.m_wb (get_rs1 d) true (value p.regfile (get_rs1 d));
      read_data2 =
          bypass p.m_wb (get_rs2 d) (instruction_uses_rs2 (get_opcode d))
            (value p.regfile (get_rs2 d));
    }

-- A nop that is fetched is a bubble once it is decoded, or held back.
pub nop_decoded :
    (p : Pipeline) (s : Succeeds p)
    → s.executed.0.pc_write_enable ≡ false
    → p.if_id ≡ nop_if_id
    → IsBubble (clocked p s).id_ex
nop_decoded p s stays fetched =
    elim (Bool-cases (has_hazard p.id_ex (decoder p.if_id.instruction_word))) [
      | inl waits ↦ subst IsBubble (sym (dropped_after p s stays waits)) empty-IsBubble
      | inr moves ↦
          subst IsBubble
            (sym (moved_after p s stays moves ∙ ap (λ f. decoded_word p f s.imm) fetched))
            (nop-IsBubble p.regfile s.imm _ _)
    ]

module _ (text : Text) (p : Pipeline) (rf : RegisterFile) (bus : MemoryBus)
    (pipelined : p.pipelining ≡ true) (behind : Behind text p rf bus) (holds : Holds text bus) where
  -- A cycle that executes a bubble changes neither registers nor memory, whatever is fetched.
  pub record Filled (fetch : FetchDone p) : Type 0 where
    pub succeeds : Succeeds p
    pub same_fetch : succeeds.fetch ≡ fetch
    pub stays : succeeds.executed.0.pc_write_enable ≡ false
    pub behind_lem : Behind text (clocked p succeeds) rf bus

  pub filled :
      (fetch : FetchDone p) (f : IfId) (imm : ℤ)
      → SameMemory p.bus fetch.bus
      → IsBubble p.id_ex
      → p.if_id ≡ f
      → get_immediate (decoder f.instruction_word) ≡ ok imm
      → Filled fetch
  filled fetch f imm same bubble fetched decodes =
      let (r, executes, stays) =
        bubble_executes p.id_ex p.execute.alu (forward p.ex_m p.m_wb p.id_ex.rs1 p.id_ex.read_data1)
          (forward p.ex_m p.m_wb p.id_ex.rs2 p.id_ex.read_data2) bubble in
      let here : Ready text p rf bus pipelined behind fetch imm r =
        ready text p rf bus pipelined behind fetch imm r same
          (ap (λ f. get_immediate (decoder f.instruction_word)) fetched ∙ decodes) executes in
      let s = here.succeeds in
      record {
        succeeds = s;
        same_fetch = here.same_fetch;
        stays = ap (λ x. x.0.pc_write_enable) here.same_result ∙ stays;
        behind_lem =
            Behind-after text p rf bus pipelined behind s 0 s.written_bus rf bus here.same_loaded
              (Holds-SameMemory text bus s.written_bus
                (SameMemory-sym s.written_bus bus here.same_bus) holds)
              (omega (arith, bubble.no_destination))
              (bubble-Accesses (clocked p s).ex_m s.written_bus bubble.no_read bubble.no_write)
              here.same_bus (discards (passed (clocked p s).ex_m 0) rf bubble.no_destination);
      }

module _ (text : Text) (legal : IsLegal text) (p : Pipeline) (rf : RegisterFile) (bus : MemoryBus)
    (running : IsRunning p) (behind : Behind text p rf bus) (holds : Holds text bus) where
  pub Fetching-cycle :
      (pc w : ℕ)
      → Fetching p pc
      → text.words pc ≡ some w
      → (q : Pipeline) × (cycle p ≡ returns tt q)
        × IsRunning q
        × Behind text q rf bus
        × Decoding text q pc
  unfolding word_done
  Fetching-cycle pc w front at_pc =
      let at = ap text.words front.new_pc ∙ at_pc in
      let (fetch_bus, read) = behind.holds.0 p.pc w at in
      let unmarked = legal.unmarked p.pc w at in
      let x : Filled text p rf bus (running.0) behind holds
          (word_done p w fetch_bus running read unmarked) =
        filled text p rf bus (running.0) behind holds
          (word_done p w fetch_bus running read unmarked) nop_if_id (pos 0)
          (read-SameMemory word p.pc w p.bus fetch_bus read) front.bubble front.fetched
          nop_decodes in
      let s = x.succeeds in
      let (fetched, new_pc) =
        word_after p s w fetch_bus running read unmarked x.same_fetch x.stays
          (bubble-no_hazard p.id_ex _ front.bubble) in
      (
        clocked p s,
        cycle_lem p s (word-Goes p s w fetch_bus running read unmarked x.same_fetch),
        word-IsRunning p s w fetch_bus running read unmarked x.same_fetch,
        x.behind_lem,
        record {
          here = w;
          at_pc = at_pc;
          bubble = nop_decoded p s x.stays front.fetched;
          fetched = fetched ∙ ap (λ a. fetched_at a w) front.new_pc;
          new_pc = new_pc ∙ ap next front.new_pc;
        },
      )

  pub Decoding-cycle :
      (pc w : ℕ)
      → Decoding text p pc
      → text.words (next pc) ≡ some w
      → (q : Pipeline) × (cycle p ≡ returns tt q)
        × IsRunning q
        × Behind text q rf bus
        × Executing text q pc
  unfolding word_done
  Decoding-cycle pc w front at_next =
      let at = ap text.words front.new_pc ∙ at_next in
      let (fetch_bus, read) = behind.holds.0 p.pc w at in
      let unmarked = legal.unmarked p.pc w at in
      let (imm, decodes) = legal.decodes pc front.here front.at_pc in
      let x : Filled text p rf bus (running.0) behind holds
          (word_done p w fetch_bus running read unmarked) =
        filled text p rf bus (running.0) behind holds
          (word_done p w fetch_bus running read unmarked) (fetched_at pc front.here) imm
          (read-SameMemory word p.pc w p.bus fetch_bus read) front.bubble front.fetched decodes in
      let s = x.succeeds in
      let no_hazard = λ (d : InstructionDecoder). bubble-no_hazard p.id_ex d front.bubble in
      let (fetched, new_pc) =
        word_after p s w fetch_bus running read unmarked x.same_fetch x.stays (no_hazard _) in
      (
        clocked p s,
        cycle_lem p s (word-Goes p s w fetch_bus running read unmarked x.same_fetch),
        word-IsRunning p s w fetch_bus running read unmarked x.same_fetch,
        x.behind_lem,
        record {
          here = front.here;
          behind = w;
          at_pc = front.at_pc;
          at_next = at_next;
          issue =
              issued_after text p rf bus (running.0) behind s pc front.here x.stays
                (no_hazard (decoder front.here)) (front.bubble.no_load ∙ sym front.bubble.no_read)
                front.fetched;
          fetched = fetched ∙ ap (λ a. fetched_at a w) front.new_pc;
          new_pc = new_pc ∙ ap next front.new_pc;
        },
      )
