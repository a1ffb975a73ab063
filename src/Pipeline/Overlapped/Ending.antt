-- ===== src/Pipeline/Overlapped/Ending.antt =====
-- The cycles from the one in which the end marker is fetched to the one that ends the test: the
-- instructions under way are finished.
use ca.Base.{
  ℕ, suc, ◌-◌, ◌≡◌, refl, sym, ap, subst, ◌∙◌, arith, true, false, returns, some, inl, inr, ◌⊎◌,
  ◌≢◌, Bool-cases, if_false,
}
use ca.Base.Int.{pos}
use ca.Memory.{word}
use ca.Decoder.{get_immediate}
use ca.Decoder.Fields.{decoder}
use ca.RegFile.{RegisterFile}
use ca.Bus
use ca.Bus.{MemoryBus}
use ca.Stages.{Pipeline}
use ca.Stages.EndMarker.{Draining}
use ca.Stages.Decode.{has_hazard}
use ca.Stages.Fetch.{test_end_marker}
use ca.Pipeline.OneStage.{cycle}
use ca.Pipeline.Instruction.{instruction}
use ca.Pipeline.Overlapped.FetchCycle.{IsRunning}
use ca.Pipeline.Overlapped.Whole.{Goes, FetchDone, Succeeds, clocked, cycle_lem}
use ca.Pipeline.Overlapped.After.{taken_after, dropped_after, marked_after}
use ca.Pipeline.SameMemory.{SameMemory, read-SameMemory}
use ca.Pipeline.Text.{Text, IsLegal, Holds, next}
use ca.Pipeline.Overlapped.Represents.{
  Behind, Issued, Executing, Decoding, Fetching, fetched_at, nop_if_id, empty-IsBubble, IsBubble,
}
use ca.Pipeline.Overlapped.Steps.{issued_after}
use ca.Pipeline.Overlapped.Fetched.{marker_done, nop_done}
use ca.Pipeline.Overlapped.Bubbles.{Filled, filled, nop_decoded, nop_decodes, bubble-no_hazard}
use ca.Pipeline.Overlapped.Executes.{Done, done}
use ca.Pipeline.Overlapped.Advance.{Effects-at, issued-loads}

-- The marker was seen, and the last instruction is decoded.
pub record Last (text : Text) (p : Pipeline) (pc : ℕ) (rf : RegisterFile) (bus : MemoryBus)
    : Type 0 where
  pub here : ℕ
  pub at_pc : text.words pc ≡ some here
  pub draining : Draining 4 p
  pub behind : Behind text p rf bus
  pub issue : Issued p pc here
  pub fetched : p.if_id ≡ nop_if_id

-- The marker was seen, and nothing is decoded.
pub record Drains (text : Text) (c : ℕ) (p : Pipeline) (rf : RegisterFile) (bus : MemoryBus)
    : Type 0 where
  pub draining : Draining c p
  pub behind : Behind text p rf bus
  pub bubble : IsBubble p.id_ex
  pub fetched : p.if_id ≡ nop_if_id

-- After the cycle in which the marker is fetched four clock pulses are left.
marker-Draining :
    (p : Pipeline) (s : Succeeds p) (bus : MemoryBus) (run : IsRunning p)
    (fetched : Bus.read word p.pc p.bus ≡ returns test_end_marker bus)
    → s.fetch ≡ marker_done p bus run fetched
    → Goes s.fetch.after × Draining 4 (clocked p s)
unfolding marker_done
marker-Draining p s bus run fetched same = (
  λ _. rw (ap (λ f. f.after.end_marker_countdown) same) (omega arith),
  (run.0, ap (λ f. f.final.end_marker_seen) same, ap (λ f. f.final.end_marker_countdown) same),
)

-- After a later cycle there is one left fewer.
pub nop-Draining :
    (c : ℕ) (p : Pipeline) (s : Succeeds p) (d : Draining (suc c) p)
    → s.fetch ≡ nop_done p d.0 d.1
    → Goes s.fetch.after × Draining c (clocked p s)
unfolding nop_done
nop-Draining c p s d same = (
  λ _. rw (ap (λ f. f.after.end_marker_countdown) same ∙ d.2) (omega arith),
  (
    d.0,
    ap (λ f. f.final.end_marker_seen) same ∙ d.1,
    ap (λ f. f.final.end_marker_countdown) same ∙ ap (λ n. n - 1) d.2 ∙ omega arith,
  ),
)

module _ (text : Text) (legal : IsLegal text) (p : Pipeline) (rf : RegisterFile) (bus : MemoryBus)
    (running : IsRunning p) (behind : Behind text p rf bus) (holds : Holds text bus)
    (at_stop : p.pc ≡ text.stop) where
  abbrev marker_bus : MemoryBus
  marker_bus = behind.holds.1.0

  marker_read : Bus.read word p.pc p.bus ≡ returns test_end_marker marker_bus
  marker_read = ap (λ a. Bus.read word a p.bus) at_stop ∙ behind.holds.1.1

  abbrev marker : FetchDone p
  marker = marker_done p marker_bus running marker_read

  marker_same : SameMemory p.bus marker.bus
  unfolding marker_done
  marker_same = read-SameMemory word p.pc test_end_marker p.bus marker_bus marker_read

  marker_flush : marker.flush ≡ true
  unfolding marker_done
  marker_flush = refl

  -- The marker is fetched while nothing is under way.
  pub marker-Fetching :
      (pc : ℕ) → Fetching p pc → (q : Pipeline) × (cycle p ≡ returns tt q) × Drains text 4 q rf bus
  marker-Fetching pc front =
      let x : Filled text p rf bus (running.0) behind holds marker =
        filled text p rf bus (running.0) behind holds marker nop_if_id (pos 0) marker_same
          front.bubble front.fetched nop_decodes in
      let s = x.succeeds in
      let (goes, draining) = marker-Draining p s marker_bus running marker_read x.same_fetch in
      (
        clocked p s,
        cycle_lem p s goes,
        record {
          draining = draining;
          behind = x.behind_lem;
          bubble = nop_decoded p s x.stays front.fetched;
          fetched = (marked_after p s x.stays (ap (λ f. f.flush) x.same_fetch ∙ marker_flush)).0;
        },
      )

  -- The marker is fetched while the last instruction is decoded, behind a bubble.
  pub marker-Decoding :
      (pc : ℕ)
      → Decoding text p pc
      → (q : Pipeline) × (cycle p ≡ returns tt q) × Last text q pc rf bus
  marker-Decoding pc front =
      let (imm, decodes) = legal.decodes pc front.here front.at_pc in
      let x : Filled text p rf bus (running.0) behind holds marker =
        filled text p rf bus (running.0) behind holds marker (fetched_at pc front.here) imm
          marker_same front.bubble front.fetched decodes in
      let s = x.succeeds in
      let (goes, draining) = marker-Draining p s marker_bus running marker_read x.same_fetch in
      (
        clocked p s,
        cycle_lem p s goes,
        record {
          here = front.here;
          at_pc = front.at_pc;
          draining = draining;
          behind = x.behind_lem;
          issue =
              issued_after text p rf bus (running.0) behind s pc front.here x.stays
                (bubble-no_hazard p.id_ex (decoder front.here) front.bubble)
                (front.bubble.no_load ∙ sym front.bubble.no_read) front.fetched;
          fetched = (marked_after p s x.stays (ap (λ f. f.flush) x.same_fetch ∙ marker_flush)).0;
        },
      )

  -- The marker is fetched while the last instruction but one is executed, which is no transfer and
  -- no load for which the last one waits.
  pub marker-Executing :
      (pc : ℕ) (rf' : RegisterFile) (bus' : MemoryBus) (front : Executing text p pc)
      → has_hazard p.id_ex (decoder front.behind) ≡ false
      → ((s : Succeeds p) → s.executed.0.pc_write_enable ≡ false)
      → instruction pc rf bus ≡ returns (next pc, rf') bus'
      → (q : Pipeline) × (cycle p ≡ returns tt q) × Last text q (next pc) rf' bus'
  marker-Executing pc rf' bus' front no_hazard stays e =
      let (imm, decodes) = legal.decodes (next pc) front.behind front.at_next in
      let (b, same, effects) =
        Effects-at text pc front.here (next pc) rf rf' bus bus' holds front.at_pc e in
      let x : Done text p rf bus (running.0) behind holds pc front.here front.issue (next pc) rf' b
          bus' same effects marker imm =
        done text p rf bus (running.0) behind holds pc front.here front.issue (next pc) rf' b bus'
          same effects marker imm marker_same
          (ap (λ f. get_immediate (decoder f.instruction_word)) front.fetched ∙ decodes) in
      let s = x.succeeds in
      let (goes, draining) = marker-Draining p s marker_bus running marker_read x.same_fetch in
      (
        clocked p s,
        cycle_lem p s goes,
        record {
          here = front.behind;
          at_pc = front.at_next;
          draining = draining;
          behind = x.behind_lem;
          issue =
              issued_after text p rf bus (running.0) behind s (next pc) front.behind (stays s)
                no_hazard (issued-loads p pc front.here front.issue) front.fetched;
          fetched = (marked_after p s (stays s) (ap (λ f. f.flush) x.same_fetch ∙ marker_flush)).0;
        },
      )

  -- The marker is fetched while an instruction is executed that jumps away, or for whose result the
  -- one behind it waits: that one is lost.
  pub marker_losing :
      (pc pc' : ℕ) (rf' : RegisterFile) (bus' : MemoryBus) (front : Executing text p pc)
      → (has_hazard p.id_ex (decoder front.behind) ≡ true) ⊎ (pc' ≢ next pc)
      → instruction pc rf bus ≡ returns (pc', rf') bus'
      → (q : Pipeline) × (cycle p ≡ returns tt q) × Drains text 4 q rf' bus'
  marker_losing pc pc' rf' bus' front why e =
      let (imm, decodes) = legal.decodes (next pc) front.behind front.at_next in
      let (b, same, effects) =
        Effects-at text pc front.here pc' rf rf' bus bus' holds front.at_pc e in
      let x : Done text p rf bus (running.0) behind holds pc front.here front.issue pc' rf' b bus'
          same effects marker imm =
        done text p rf bus (running.0) behind holds pc front.here front.issue pc' rf' b bus' same
          effects marker imm marker_same
          (ap (λ f. get_immediate (decoder f.instruction_word)) front.fetched ∙ decodes) in
      let s = x.succeeds in
      let (goes, draining) = marker-Draining p s marker_bus running marker_read x.same_fetch in
      let lost : IsBubble (clocked p s).id_ex × ((clocked p s).if_id ≡ nop_if_id) =
        elim (Bool-cases s.executed.0.pc_write_enable) [
          | inl taken ↦
              let (no_issue, no_word, _) = taken_after p s taken in
              (subst IsBubble (sym no_issue) empty-IsBubble, no_word)
          | inr stays ↦
              let waits : has_hazard p.id_ex (decoder front.behind) ≡ true = elim why [
                | inl waits ↦ waits
                | inr away ↦ absurd (away (x.transfer ∙ if_false _ _ stays))
              ] in
              (
                subst IsBubble
                    (sym (
                      dropped_after p s stays (
                        ap (λ f. has_hazard p.id_ex (decoder f.instruction_word)) front.fetched
                        ∙ waits)))
                    empty-IsBubble,
                (marked_after p s stays (ap (λ f. f.flush) x.same_fetch ∙ marker_flush)).0,
              )
        ] in
      (
        clocked p s,
        cycle_lem p s goes,
        record { draining = draining; behind = x.behind_lem; bubble = lost.0; fetched = lost.1 },
      )
