-- ===== src/Processor/EndMarker.antt =====
-- The end of a test in pipelined mode, seen from the main loop.
use ca.Base.{
  ℕ, zero, suc, ◌+◌, ◌%◌, ◌<◌, ◌≤◌, ◌≡◌, refl, arith, Bool, true, false, Outcome, returns, throws,
  IfReturns, ◌>>=◌, ◌>>◌, ◌==◌, if◌then◌else◌,
}
use ca.Base
use ca.Memory.{word}
use ca.Bus
use ca.Bus.{MemoryBus}
use ca.Stages.{Pipeline}
use ca.Stages.Fetch.{test_end_marker}
use ca.Stages.EndMarker.{Draining, Drained}
use ca.Pipeline
use ca.Pipeline.EndMarker.{cycle-Drained, marker_cycle-Draining}
use ca.Processor.{
  Processor, Ending, ended, out_of_fuel, bus_ticked, count_cycle, after_cycle, cycle, run,
  should_halt,
}

-- The loop does not run out of fuel.
abbrev pub Finishes : Ending → Type 0
Finishes (ended b p) = Unit
Finishes Ending.undefined = Unit
Finishes (out_of_fuel p) = ⊥

-- The bus has no state that its clock changes.
pub bus_ticked-eq-pipeline : (p : Processor) → bus_ticked p ≡ p.pipeline
unfolding bus_ticked Bus.clock_pulse
bus_ticked-eq-pipeline p = ground arith

count_cycle-IfReturns :
    (P : Pipeline → Type 0) (p : Processor) (o : Outcome Pipeline (Unit {0}))
    → IfReturns P o
    → IfReturns (λ q. P q.pipeline) (count_cycle p o)
unfolding count_cycle
count_cycle-IfReturns P p (returns u q) h = h
count_cycle-IfReturns P p (throws e q) h = tt
count_cycle-IfReturns P p Base.Outcome.undefined h = tt

cycle-IfReturns :
    (P : Pipeline → Type 0) (p : Processor)
    → IfReturns P ((Pipeline.propagate >> Pipeline.clock_pulse) p.pipeline)
    → IfReturns (λ q. P q.pipeline) (cycle p)
unfolding cycle
cycle-IfReturns P p h = rw (bus_ticked-eq-pipeline p) (count_cycle-IfReturns P p _ h)

after_cycle-Finishes :
    (P : Processor → Type 0) (continue : Processor → Ending) (t : Bool)
    (o : Outcome Processor (Unit {0}))
    → IfReturns P o
    → ((q : Processor) → P q → Finishes (continue q))
    → Finishes (after_cycle continue t o)
unfolding after_cycle
after_cycle-Finishes P continue t (returns u q) h k = k q h
after_cycle-Finishes P continue t (throws e q) h k = tt
after_cycle-Finishes P continue t Base.Outcome.undefined h k = tt

run-suc-Finishes :
    (P : Processor → Type 0) (fuel : ℕ) (t : Bool) (p : Processor)
    → IfReturns P (cycle p)
    → ((q : Processor) → P q → Finishes (run fuel t q))
    → Finishes (run (suc fuel) t p)
unfolding run
run-suc-Finishes P fuel t p h k =
    elim (should_halt p)
      as (λ b.
        Finishes (elim b [ true ↦ ended true p | false ↦ after_cycle (run fuel t) t (cycle p) ])) [
          | true ↦ tt
          | false ↦ after_cycle-Finishes P (run fuel t) t (cycle p) h k
        ]

run-Finishes-Draining :
    (c fuel : ℕ) (t : Bool) (p : Processor)
    → c < fuel
    → Draining c p.pipeline
    → Finishes (run fuel t p)
run-Finishes-Draining c zero t p h d = absurd (omega arith)
run-Finishes-Draining zero (suc fuel) t p h d =
    run-suc-Finishes (λ q. ⊥) fuel t p
      (cycle-IfReturns (Drained zero) p (cycle-Drained zero p.pipeline d)) (λ q a. absurd a)
run-Finishes-Draining (suc c) (suc fuel) t p h d =
    run-suc-Finishes (λ q. Draining c q.pipeline) fuel t p
      (cycle-IfReturns (Drained (suc c)) p (cycle-Drained (suc c) p.pipeline d))
      (λ q d'. run-Finishes-Draining c fuel t q (omega arith) d')

-- In pipelined mode, with no end marker seen yet, if the word at the PC is the end marker then the
-- main loop with at least six cycles of fuel does not run out of it: it returns, or its behaviour
-- is undefined. This needs nothing of the branches that are still in the pipeline, so it holds too
-- where a branch that is taken should have discarded the fetched marker.
pub run_ends_after_marker :
    (fuel : ℕ) (test_mode : Bool) (p : Processor) (bus : MemoryBus)
    → 5 < fuel
    → p.pipeline.pipelining ≡ true
    → p.pipeline.fetch.end_marker_seen ≡ false
    → Bus.read word p.pipeline.pc p.pipeline.bus ≡ returns test_end_marker bus
    → Finishes (run fuel test_mode p)
run_ends_after_marker zero t p bus h e₁ e₂ e₃ = absurd (omega arith)
run_ends_after_marker (suc fuel) t p bus h e₁ e₂ e₃ =
    run-suc-Finishes (λ q. Draining 4 q.pipeline) fuel t p
      (cycle-IfReturns (Draining 4) p (marker_cycle-Draining p.pipeline bus e₁ e₂ e₃))
      (λ q d. run-Finishes-Draining 4 fuel t q (omega arith) d)
