-- ===== src/Pipeline/Overlapped/Drain.antt =====
-- The cycles after the end marker was fetched.
use ca.Base.{
  ℕ, suc, ◌≡◌, refl, sym, ap, subst, ◌∙◌, arith, Bool, false, returns, inl, inr, Bool-cases,
}
use ca.Base.Int.{pos}
use ca.Decoder.{get_immediate}
use ca.Decoder.Fields.{decoder}
use ca.RegFile.{RegisterFile}
use ca.MemoryControl.{get_data_out, data_clock_pulse}
use ca.Bus.{MemoryBus}
use ca.Stages.{Pipeline, ExM}
use ca.Stages.Forwarding.{commit_write_back}
use ca.Pipeline.OneStage.{cycle, port}
use ca.Pipeline.Instruction.{instruction}
use ca.Pipeline.Overlapped.Whole.{clocked, cycle_lem, end_cycle_lem}
use ca.Pipeline.Overlapped.After.{taken_after, drained_after}
use ca.Pipeline.SameMemory.{SameMemory}
use ca.Pipeline.Text.{Text, Holds}
use ca.Pipeline.Overlapped.Operands.{passed}
use ca.Pipeline.Ends.{Final, EndsTest, EndsWithin, ends_now, goes_on}
use ca.Pipeline.Overlapped.Represents.{Behind, IsBubble, nop_if_id, empty-IsBubble}
use ca.Pipeline.Overlapped.Fetched.{nop_done}
use ca.Pipeline.Overlapped.Bubbles.{Filled, filled, discards, nop_decoded, nop_decodes}
use ca.Pipeline.Overlapped.Executes.{Done, done}
use ca.Pipeline.Overlapped.Advance.{Effects-at}
use ca.Pipeline.Overlapped.Ending.{Last, Drains, nop-Draining}

-- The last instruction is executed; behind it comes a bubble, whether it is a transfer or not.
pub Last-cycle :
    (text : Text) (p : Pipeline) (rf : RegisterFile) (bus : MemoryBus) (pc pc' : ℕ)
    (rf' : RegisterFile) (bus' : MemoryBus)
    → Holds text bus
    → Last text p pc rf bus
    → instruction pc rf bus ≡ returns (pc', rf') bus'
    → (q : Pipeline) × (cycle p ≡ returns tt q) × Drains text 3 q rf' bus'
unfolding nop_done
Last-cycle text p rf bus pc pc' rf' bus' holds l e =
    let d = l.draining in
    let nop = nop_done p (d.0) (d.1) in
    let (b, same, effects) = Effects-at text pc l.here pc' rf rf' bus bus' holds l.at_pc e in
    let x : Done text p rf bus (d.0) l.behind holds pc l.here l.issue pc' rf' b bus' same effects
        nop (pos 0) =
      done text p rf bus (d.0) l.behind holds pc l.here l.issue pc' rf' b bus' same effects nop
        (pos 0) (refl, refl)
        (ap (λ f. get_immediate (decoder f.instruction_word)) l.fetched ∙ nop_decodes) in
    let s = x.succeeds in
    let (goes, draining) = nop-Draining 3 p s d x.same_fetch in
    let front : IsBubble (clocked p s).id_ex × ((clocked p s).if_id ≡ nop_if_id) =
      elim (Bool-cases s.executed.0.pc_write_enable) [
        | inl taken ↦
            let (no_issue, no_word, _) = taken_after p s taken in
            (subst IsBubble (sym no_issue) empty-IsBubble, no_word)
        | inr stays ↦ (
          nop_decoded p s stays l.fetched,
          (drained_after p s stays (ap (λ f. f.flush) x.same_fetch)
                (ap (λ f. f.after.end_marker_seen) x.same_fetch ∙ d.1)).0
              ∙ l.fetched,
        )
      ] in
    (
      clocked p s,
      cycle_lem p s goes,
      record { draining = draining; behind = x.behind_lem; bubble = front.0; fetched = front.1 },
    )

-- An instruction that changes neither registers nor memory.
abbrev Quiet : ExM → Type 0
Quiet e = (e.rd ≡ 0) × (e.control.mem_read ≡ false) × (e.control.mem_write ≡ false)

-- Nothing but bubbles follows: the instructions under way move on.
pub drain_cycle :
    (text : Text) (c : ℕ) (p : Pipeline) (rf : RegisterFile) (bus : MemoryBus)
    → Holds text bus
    → Drains text (suc c) p rf bus
    → (q : Pipeline) × (cycle p ≡ returns tt q)
      × Drains text c q rf bus
      × Quiet q.ex_m
      × (q.m_wb.rd ≡ p.ex_m.rd)
unfolding nop_done
drain_cycle text c p rf bus holds h =
    let d = h.draining in
    let nop = nop_done p (d.0) (d.1) in
    let x : Filled text p rf bus (d.0) h.behind holds nop =
      filled text p rf bus (d.0) h.behind holds nop nop_if_id (pos 0) (refl, refl) h.bubble
        h.fetched nop_decodes in
    let s = x.succeeds in
    let (goes, draining) = nop-Draining c p s d x.same_fetch in
    (
      clocked p s,
      cycle_lem p s goes,
      record {
        draining = draining;
        behind = x.behind_lem;
        bubble = nop_decoded p s x.stays h.fetched;
        fetched =
            (drained_after p s x.stays (ap (λ f. f.flush) x.same_fetch)
              (ap (λ f. f.after.end_marker_seen) x.same_fetch ∙ d.1)).0
            ∙ h.fetched;
      },
      (h.bubble.no_destination, h.bubble.no_read, h.bubble.no_write),
      refl,
    )

Quiet-bus :
    (e : ExM) (bus read_bus bus' : MemoryBus) (sign : Bool) (loaded : ℕ)
    → Quiet e
    → get_data_out sign (port e.control e.alu_result e.write_data) bus ≡ returns loaded read_bus
    → data_clock_pulse (port e.control e.alu_result e.write_data) read_bus ≡ returns tt bus'
    → (read_bus ≡ bus) × (bus' ≡ bus)
unfolding get_data_out data_clock_pulse
Quiet-bus e bus read_bus bus' sign loaded quiet reads writes = ground arith

-- The instructions that are left change nothing.
settled :
    (text : Text) (p : Pipeline) (rf : RegisterFile) (bus : MemoryBus)
    → Behind text p rf bus
    → Quiet p.ex_m
    → p.m_wb.rd ≡ 0
    → Final rf bus p
settled text p rf bus behind quiet no_destination =
    let a = behind.accesses in
    let (_, unchanged) =
      Quiet-bus p.ex_m p.bus a.read_bus behind.accessed_bus p.ex_m.control.mem_sign_extend
        behind.loaded quiet a.reads a.writes in
    (
      sym (
            discards (passed p.ex_m behind.loaded) (commit_write_back p.m_wb p.regfile) quiet.0
            ∙ discards p.m_wb p.regfile no_destination)
          ∙ behind.registers,
      subst (λ b. SameMemory b bus) unchanged behind.memory,
    )

-- The last cycle of the countdown ends the test.
end_cycle :
    (text : Text) (p : Pipeline) (rf : RegisterFile) (bus : MemoryBus)
    → Holds text bus
    → Drains text 0 p rf bus
    → Quiet p.ex_m
    → p.m_wb.rd ≡ 0
    → EndsTest (Final rf bus) (cycle p)
unfolding nop_done
end_cycle text p rf bus holds h quiet no_destination =
    let d = h.draining in
    let nop = nop_done p (d.0) (d.1) in
    let x : Filled text p rf bus (d.0) h.behind holds nop =
      filled text p rf bus (d.0) h.behind holds nop nop_if_id (pos 0) (refl, refl) h.bubble
        h.fetched nop_decodes in
    let s = x.succeeds in
    let (registers, memory) = settled text p rf bus h.behind quiet no_destination in
    let (unchanged, _) =
      Quiet-bus p.ex_m s.fetch.bus s.read_bus s.written_bus p.ex_m.control.mem_sign_extend s.loaded
        quiet s.reads s.writes in
    let same_bus : s.read_bus ≡ p.bus = unchanged ∙ ap (λ f. f.bus) x.same_fetch in
    subst (EndsTest (Final rf bus))
      (sym (
        end_cycle_lem p s (ap (λ f. f.after.end_marker_seen) x.same_fetch ∙ d.1)
          (ap (λ f. f.after.end_marker_countdown) x.same_fetch ∙ d.2)))
      (registers, subst (λ b. SameMemory b bus) (sym same_bus) memory)

-- From where nothing but bubbles is decoded, in at least three clock pulses.
pub drains-EndsWithin :
    (text : Text) (p : Pipeline) (rf : RegisterFile) (bus : MemoryBus)
    → Holds text bus
    → Drains text 3 p rf bus
    → EndsWithin text rf bus 4 p
drains-EndsWithin text p rf bus holds h =
    let (q, e, hq, quiet, _) = drain_cycle text 2 p rf bus holds h in
    let (r, e', hr, quiet', moved) = drain_cycle text 1 q rf bus holds hq in
    let (t, e'', ht, quiet'', moved') = drain_cycle text 0 r rf bus holds hr in
    goes_on 3 p q (h.behind.holds.2) e (
      goes_on 2 q r (hq.behind.holds.2) e' (
        goes_on 1 r t (hr.behind.holds.2) e'' (
          ends_now 0 t (ht.behind.holds.2)
            (end_cycle text t rf bus holds ht quiet'' (moved' ∙ quiet'.0)))))
