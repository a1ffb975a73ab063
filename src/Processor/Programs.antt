-- ===== src/Processor/Programs.antt =====
-- src/processor.cc: the main loop on a whole program, in both modes.
mod Texts
mod Tests
use ca.Base.{
  ℕ, zero, suc, ◌+◌, ◌*◌, ◌≤◌, ◌≡◌, refl, sym, ap, subst, ◌∙◌, arith, Bool, true, false, Outcome,
  returns, throws, some, none, get_elem?, Option, u64, test_end_marker_encountered,
}
use ca.Base
use ca.RegFile.{RegisterFile}
use ca.RegFile.Laws.{IsComplete}
use ca.Bus.{MemoryBus, Client, memory, serial, sys_status}
use ca.Stages.{Pipeline}
use ca.Pipeline
use ca.Pipeline.OneStage
use ca.Pipeline.Text.{Text, IsLegal, Holds, asks_halt}
use ca.Pipeline.Ends.{Final, EndsTest, EndsWithin, EndsWithin-le, ends_now, goes_on}
use ca.Pipeline.Completes.{Completes}
use ca.Pipeline.Overlapped.Program.{initial_ends}
use ca.Pipeline.OneByOne.{initial_ends_one_by_one}
use ca.Pipeline.Overlapped.CutShort.{IsCutShort, initial_ends_early}
use ca.Pipeline.Instruction.{instruction}
use ca.Processor.{
  Processor, Ending, ended, out_of_fuel, client_halts, count_cycle, after_cycle, cycle, run,
  should_halt, bus_ticked, verdict,
}
use ca.Processor.EndMarker.{bus_ticked-eq-pipeline}

-- The loop ended with this result, in a state of which `P` holds.
abbrev pub EndsAs : (Pipeline → Type 0) → Bool → Ending → Type 0
EndsAs P b (ended b' p) = (b' ≡ b) × P p.pipeline
EndsAs P b Ending.undefined = ⊥
EndsAs P b (out_of_fuel p) = ⊥

client_halts-eq-asks : (c : Option Client) → client_halts c ≡ asks_halt c
client_halts-eq-asks none = refl
client_halts-eq-asks (some (memory m)) = refl
client_halts-eq-asks (some (serial s)) = refl
client_halts-eq-asks (some (sys_status s)) = refl

not_halted :
    (p : Processor) (status : ℕ)
    → p.sys_status_client ≡ status
    → asks_halt (get_elem? p.pipeline.bus.clients status) ≡ false
    → should_halt p ≡ false
unfolding should_halt
not_halted p status same awake =
    client_halts-eq-asks (get_elem? p.pipeline.bus.clients p.sys_status_client)
    ∙ ap (λ i. asks_halt (get_elem? p.pipeline.bus.clients i)) same
    ∙ awake

round_lem :
    (fuel : ℕ) (t : Bool) (p : Processor)
    → should_halt p ≡ false
    → run (suc fuel) t p
      ≡ after_cycle (run fuel t) t (count_cycle p (Pipeline.OneStage.cycle p.pipeline))
unfolding run cycle
round_lem fuel t p awake =
    rw (awake, run)
      (ap (λ q. after_cycle (run fuel t) t (count_cycle p (Pipeline.OneStage.cycle q)))
        (bus_ticked-eq-pipeline p))

ends_after :
    (P : Pipeline → Type 0) (continue : Processor → Ending) (t : Bool) (p : Processor)
    (o : Outcome Pipeline (Unit {0}))
    → EndsTest P o
    → EndsAs P t (after_cycle continue t (count_cycle p o))
unfolding after_cycle count_cycle verdict
ends_after P continue t p (throws (test_end_marker_encountered a) q) h = (refl, h)
ends_after P continue t p _ h = absurd h

run_ends :
    (text : Text) (rf : RegisterFile) (bus : MemoryBus) (k fuel : ℕ) (t : Bool) (p : Processor)
    (q : Pipeline)
    → p.sys_status_client ≡ text.status
    → p.pipeline ≡ q
    → k ≤ fuel
    → EndsWithin text rf bus k q
    → EndsAs (Final rf bus) t (run fuel t p)
unfolding after_cycle count_cycle
run_ends text rf bus zero fuel t p q status same le h = elim h [ ]
run_ends text rf bus (suc k) zero t p q status same le h = absurd (omega arith)
run_ends text rf bus (suc k) (suc fuel) t p q status same le (ends_now _ _ awake ends) =
    let awake' =
      not_halted p text.status status
        (ap (λ r. asks_halt (get_elem? r.bus.clients text.status)) same ∙ awake) in
    subst (EndsAs (Final rf bus) t) (sym (round_lem fuel t p awake')) (
      ends_after (Final rf bus) (run fuel t) t p (OneStage.cycle p.pipeline)
        (subst (λ r. EndsTest (Final rf bus) (OneStage.cycle r)) (sym same) ends))
run_ends text rf bus (suc k) (suc fuel) t p q status same le (goes_on _ _ r awake e h) =
    let awake' =
      not_halted p text.status status
        (ap (λ x. asks_halt (get_elem? x.bus.clients text.status)) same ∙ awake) in
    subst (EndsAs (Final rf bus) t)
      (sym (
        round_lem fuel t p awake'
        ∙ ap (λ o. after_cycle (run fuel t) t (count_cycle p o)) (ap OneStage.cycle same ∙ e)))
      (run_ends text rf bus k fuel t (record p { pipeline = r; n_cycles = u64 (p.n_cycles + 1) }) r
        status refl (omega arith) h)

-- From there both modes end alike.
modes_end :
    (text : Text) (n pc : ℕ) (rf rf' : RegisterFile) (bus bus' : MemoryBus) (pipelining : Bool)
    → IsLegal text
    → IsComplete rf
    → Completes text n pc rf bus rf' bus'
    → EndsWithin text rf' bus' (5 * n + 6) (Pipeline.initial pipelining pc rf bus)
modes_end text n pc rf rf' bus bus' true legal complete h =
    EndsWithin-le text rf' bus' (3 * n + 6) (5 * n + 6) (Pipeline.initial true pc rf bus)
      (omega arith) (initial_ends text legal n pc rf rf' bus bus' complete h)
modes_end text n pc rf rf' bus bus' false legal complete h =
    EndsWithin-le text rf' bus' (5 * n + 1) (5 * n + 6) (Pipeline.initial false pc rf bus)
      (omega arith) (initial_ends_one_by_one text n pc rf rf' bus bus' complete h)

-- In both modes, from the first state of the pipeline, with a complete register file and the
-- processor watching the status device of the text: let `n` instructions of a legal text, each
-- executed as a whole after the other, lead to the end marker with the registers `rf'` and the
-- bus `bus'`, and let memory hold the text and no halt be asked for before and after each of
-- them. Let each of them have two others of the text behind it, except that the run may end with
-- one or two instructions right before the marker that lead on to it in order, the first of two
-- being no branch or jump and loading no register that the second reads. Then the main loop with
-- at least `5 n + 6` cycles ends by the marker, with the result for a test, exactly those
-- registers, and the clients and output of that bus.
pub run-Completes :
    (text : Text) (n fuel pc : ℕ) (rf rf' : RegisterFile) (bus bus' : MemoryBus)
    (pipelining test_mode : Bool) (p : Processor)
    → IsLegal text
    → IsComplete rf
    → p.pipeline ≡ Pipeline.initial pipelining pc rf bus
    → p.sys_status_client ≡ text.status
    → 5 * n + 6 ≤ fuel
    → Completes text n pc rf bus rf' bus'
    → EndsAs (Final rf' bus') test_mode (run fuel test_mode p)
run-Completes text n fuel pc rf rf' bus bus' pipelining test_mode p legal complete first status
      enough h =
    run_ends text rf' bus' (5 * n + 6) fuel test_mode p (Pipeline.initial pipelining pc rf bus)
      status first enough (modes_end text n pc rf rf' bus bus' pipelining legal complete h)

-- In pipelined mode, from the first state of the pipeline, with a complete register file and the
-- processor watching the status device of the text: if the end marker stands two words behind the
-- first instruction, and this either jumps away or loads a register that the instruction in between
-- reads, then the main loop with at least eight cycles ends by the marker, with the result for a
-- test and the registers and memory right behind the first instruction: neither the instruction in
-- between nor the target of the jump is executed.
pub run-IsCutShort :
    (text : Text) (fuel pc w pc' : ℕ) (rf rf' : RegisterFile) (bus bus' : MemoryBus)
    (test_mode : Bool) (p : Processor)
    → IsLegal text
    → IsComplete rf
    → p.pipeline ≡ Pipeline.initial true pc rf bus
    → p.sys_status_client ≡ text.status
    → 8 ≤ fuel
    → IsCutShort text pc w pc'
    → Holds text bus
    → instruction pc rf bus ≡ returns (pc', rf') bus'
    → Holds text bus'
    → EndsAs (Final rf' bus') test_mode (run fuel test_mode p)
run-IsCutShort text fuel pc w pc' rf rf' bus bus' test_mode p legal complete first status enough cut
      holds e holds' =
    run_ends text rf' bus' 8 fuel test_mode p (Pipeline.initial true pc rf bus) status first enough
      (initial_ends_early text legal pc w pc' rf rf' bus bus' complete cut holds e holds')
