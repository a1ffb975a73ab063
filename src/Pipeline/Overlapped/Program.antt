-- ===== src/Pipeline/Overlapped/Program.antt =====
-- A whole program in the pipelined mode, up to its end marker.
use ca.Base.{
  ℕ, zero, suc, ◌+◌, ◌*◌, ◌≡◌, refl, sym, ap, subst, ◌∙◌, arith, true, false, ◌||◌, ok, returns,
  some,
}
use ca.Memory.{word}
use ca.Decoder.Fields.{decoder}
use ca.RegFile.{RegisterFile}
use ca.RegFile.Laws.{IsComplete}
use ca.Bus
use ca.Bus.{MemoryBus}
use ca.Stages.{Pipeline, IdEx, empty_id_ex}
use ca.Stages.Decode.{has_hazard}
use ca.Stages.Fetch.{test_end_marker}
use ca.Stages.Execute.{Executed, execute_instruction, next_instruction}
use ca.Alu.{Alu}
use ca.Pipeline
use ca.Pipeline.Instruction.{instruction}
use ca.Pipeline.Overlapped.FetchCycle.{IsRunning}
use ca.Pipeline.Text.{Text, IsLegal, Holds, next}
use ca.Pipeline.Completes.{
  Completes, Completes-Holds, at_stop, last_one, last_two, step, is_transfer, waits_for,
}
use ca.Pipeline.Ends.{EndsWithin, EndsWithin-le, goes_on}
use ca.Pipeline.Overlapped.Represents.{
  Behind, Decoding, Front, executing, decoding, fetching, Represents, bubble-Accesses,
  empty-IsBubble,
}
use ca.Pipeline.Overlapped.Advance.{Executing-cycle}
use ca.Pipeline.Overlapped.Ending.{Last, marker-Fetching, marker-Decoding, marker-Executing}
use ca.Pipeline.Overlapped.Fills.{from_fetching, from_front}
use ca.Pipeline.Overlapped.Drain.{Last-cycle, drain_cycle, drains-EndsWithin}

pub some-inj : {a b : ℕ} → some a ≡ some b → a ≡ b
some-inj e = cc

-- The end marker is not in the text.
not_stop :
    (text : Text) (a w : ℕ) (bus : MemoryBus)
    → IsLegal text
    → Holds text bus
    → text.words a ≡ some w
    → a ≡ text.stop
    → ⊥
not_stop text a w bus legal holds at stops =
    let (b, read) = holds.0 a w at in
    let (b', read') = holds.1 in
    let read'' : Bus.read word text.stop bus ≡ returns w b =
      subst (λ c. Bus.read word c bus ≡ returns w b) stops read in
    let unmarked = legal.unmarked a w at in
    let same : w ≡ test_end_marker = ground arith in ground arith

pub no_transfer :
    (i : IdEx) (alu : Alu) (a b : ℕ) (r : Executed × Alu)
    → (i.control.is_branch || i.control.is_jump) ≡ false
    → execute_instruction i alu a b ≡ ok r
    → r.0.pc_write_enable ≡ false
unfolding execute_instruction next_instruction
no_transfer i alu a b r none_of e = ground arith

module _ (text : Text) (legal : IsLegal text) where
  -- From where the last instruction is decoded to the end.
  ends_last :
      (p : Pipeline) (pc : ℕ) (rf rf' : RegisterFile) (bus bus' : MemoryBus)
      → Last text p pc rf bus
      → Holds text bus
      → instruction pc rf bus ≡ returns (text.stop, rf') bus'
      → Holds text bus'
      → EndsWithin text rf' bus' 5 p
  ends_last p pc rf rf' bus bus' l holds e holds' =
      let (q, e', h) = Last-cycle text p rf bus pc text.stop rf' bus' holds l e in
      goes_on 4 p q (l.behind.holds.2) e' (drains-EndsWithin text q rf' bus' holds' h)

  ends_at_stop :
      (p : Pipeline) (pc : ℕ) (rf : RegisterFile) (bus : MemoryBus)
      → Represents text p pc rf bus
      → Holds text bus
      → pc ≡ text.stop
      → EndsWithin text rf bus 6 p
  ends_at_stop p pc rf bus r holds stops = front_of r.front
    where
      front_of : Front text p pc → EndsWithin text rf bus 6 p
      front_of (executing front) =
          absurd (not_stop text pc front.here bus legal holds front.at_pc stops)
      front_of (decoding front) =
          absurd (not_stop text pc front.here bus legal holds front.at_pc stops)
      front_of (fetching front) =
          let (q, e, h) =
            marker-Fetching text legal p rf bus r.running r.behind holds (front.new_pc ∙ stops) pc
              front in
          let (q', e', h', _, _) = drain_cycle text 3 q rf bus holds h in
          goes_on 5 p q (r.behind.holds.2) e
            (goes_on 4 q q' (h.behind.holds.2) e' (drains-EndsWithin text q' rf bus holds h'))

  ends_last_one :
      (p : Pipeline) (pc w : ℕ) (rf rf' : RegisterFile) (bus bus' : MemoryBus)
      → Represents text p pc rf bus
      → text.words pc ≡ some w
      → next pc ≡ text.stop
      → Holds text bus
      → instruction pc rf bus ≡ returns (text.stop, rf') bus'
      → Holds text bus'
      → EndsWithin text rf' bus' 7 p
  ends_last_one p pc w rf rf' bus bus' r at_pc stops holds e holds' = front_of r.front
    where
      decoded :
          (q : Pipeline)
          → IsRunning q
          → Behind text q rf bus
          → Decoding text q pc
          → EndsWithin text rf' bus' 6 q
      decoded q running' behind' front =
          let (t, e', l) =
            marker-Decoding text legal q rf bus running' behind' holds (front.new_pc ∙ stops) pc
              front in
          goes_on 5 q t (behind'.holds.2) e' (ends_last t pc rf rf' bus bus' l holds e holds')

      front_of : Front text p pc → EndsWithin text rf' bus' 7 p
      front_of (executing front) =
          absurd (not_stop text (next pc) front.behind bus legal holds front.at_next stops)
      front_of (decoding front) =
          EndsWithin-le text rf' bus' 6 7 p (omega arith) (decoded p r.running r.behind front)
      front_of (fetching front) =
          from_fetching text legal 6 p pc w rf rf' bus bus' r.running r.behind holds front at_pc
            decoded

  ends_last_two :
      (p : Pipeline) (pc w w' : ℕ) (rf rf₁ rf' : RegisterFile) (bus bus₁ bus' : MemoryBus)
      → Represents text p pc rf bus
      → text.words pc ≡ some w
      → text.words (next pc) ≡ some w'
      → next (next pc) ≡ text.stop
      → is_transfer w ≡ false
      → waits_for w w' ≡ false
      → Holds text bus
      → instruction pc rf bus ≡ returns (next pc, rf₁) bus₁
      → Holds text bus₁
      → instruction (next pc) rf₁ bus₁ ≡ returns (text.stop, rf') bus'
      → Holds text bus'
      → EndsWithin text rf' bus' 8 p
  unfolding has_hazard
  ends_last_two p pc w w' rf rf₁ rf' bus bus₁ bus' r at_pc at_next stops no_jump no_wait holds e
        holds₁ e' holds' =
      from_front text legal 6 p pc rf rf' bus bus' r holds (w, at_pc) (w', at_next)
        (λ q running behind front.
          let here : front.here ≡ w = some-inj (sym front.at_pc ∙ at_pc) in
          let behind_here : front.behind ≡ w' = some-inj (sym front.at_next ∙ at_next) in
          let no_hazard : has_hazard q.id_ex (decoder front.behind) ≡ false =
            ap
              (λ i.
                has_hazard (record empty_id_ex { rd = i.rd; control = i.control })
                  (decoder front.behind))
              front.issue.in_execute
            ∙ ap (λ v. waits_for v front.behind) here
            ∙ ap (waits_for w) behind_here
            ∙ no_wait in
          let no_transfer_lem : (q.id_ex.control.is_branch || q.id_ex.control.is_jump) ≡ false =
            ap (λ i. i.control.is_branch || i.control.is_jump) front.issue.in_execute
            ∙ ap is_transfer here
            ∙ no_jump in
          let (t, done, l) =
            marker-Executing text legal q rf bus running behind holds (front.new_pc ∙ stops) pc rf₁
              bus₁ front no_hazard
              (λ s. no_transfer q.id_ex q.execute.alu _ _ s.executed no_transfer_lem s.executes)
              e in
          goes_on 5 q t (behind.holds.2) done
            (ends_last t (next pc) rf₁ rf' bus₁ bus' l holds₁ e' holds'))

  ends :
      (n pc : ℕ) (p : Pipeline) (rf rf' : RegisterFile) (bus bus' : MemoryBus)
      → Completes text n pc rf bus rf' bus'
      → Represents text p pc rf bus
      → EndsWithin text rf' bus' (3 * n + 6) p
  ends zero pc p rf rf' bus bus' (at_stop _ _ _ stops holds) r =
      ends_at_stop p pc rf bus r holds stops
  ends (suc n) pc p rf rf' bus bus' (last_one _ w _ _ _ _ at_pc stops holds e holds') r =
      EndsWithin-le text rf' bus' 7 (3 * suc n + 6) p (omega arith)
        (ends_last_one p pc w rf rf' bus bus' r at_pc stops holds e holds')
  ends n pc p rf rf' bus bus'
        (last_two _ w w' _ rf₁ _ _ bus₁ _ at_pc at_next stops no_jump no_wait holds e holds₁ e'
          holds')
        r =
      EndsWithin-le text rf' bus' 8 (3 * 2 + 6) p (omega arith) (
        ends_last_two p pc w w' rf rf₁ rf' bus bus₁ bus' r at_pc at_next stops no_jump no_wait holds
          e holds₁ e' holds')
  ends (suc n) pc p rf rf' bus bus' (step _ _ pc₁ _ rf₁ _ _ bus₁ _ covers holds e rest) r =
      EndsWithin-le text rf' bus' (suc (suc (suc (3 * n + 6)))) (3 * suc n + 6) p (omega arith) (
        from_front text legal (suc (3 * n + 6)) p pc rf rf' bus bus' r holds (covers.0) (covers.1)
          (λ q running behind front.
            let (t, done, r') =
              Executing-cycle text legal q rf bus running behind holds pc (covers.2.0) pc₁ rf₁ bus₁
                front (covers.2.1) e in
            goes_on (3 * n + 6) q t (behind.holds.2) done (ends n pc₁ t rf₁ rf' bus₁ bus' rest r')))

  -- The first state of the pipeline stands for the first state of the program.
  pub initial-Represents :
      (pc : ℕ) (rf : RegisterFile) (bus : MemoryBus)
      → IsComplete rf
      → Holds text bus
      → Represents text (Pipeline.initial true pc rf bus) pc rf bus
  unfolding Pipeline.initial
  initial-Represents pc rf bus complete holds = record {
    running = (refl, refl);
    behind = record {
      complete = complete;
      bounds = (omega arith, omega arith);
      holds = holds;
      loaded = 0;
      accessed_bus = bus;
      accesses = bubble-Accesses _ bus refl refl;
      memory = (refl, refl);
      registers = refl;
    };
    front = fetching (record { bubble = empty-IsBubble; fetched = refl; new_pc = refl });
  }

  pub initial_ends :
      (n pc : ℕ) (rf rf' : RegisterFile) (bus bus' : MemoryBus)
      → IsComplete rf
      → Completes text n pc rf bus rf' bus'
      → EndsWithin text rf' bus' (3 * n + 6) (Pipeline.initial true pc rf bus)
  initial_ends n pc rf rf' bus bus' complete run =
      ends n pc (Pipeline.initial true pc rf bus) rf rf' bus bus' run
        (initial-Represents pc rf bus complete (Completes-Holds text n pc rf rf' bus bus' run))
