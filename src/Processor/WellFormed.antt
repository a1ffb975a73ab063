-- ===== src/Processor/WellFormed.antt =====
-- src/processor.cc: the states of the main loop.
use ca.Base.{
  ℕ, zero, suc, ◌%◌, ◌-◌, length-set, ◌<◌, ◌≡◌, refl, arith, Bool, true, false, Outcome, Result, ok,
  returns, throws, Leaves, List, ◌==◌, ◌>>◌, if◌then◌else◌, bind,
}
use ca.Base
use ca.Bus.{Client}
use ca.RegFile
use ca.RegFile.{RegisterFile}
use ca.Stages.{Pipeline}
use ca.Stages.WellFormed.{IsWellFormed}
use ca.Pipeline.OneStage
use ca.Pipeline.WellFormed.{cycle-IsWellFormed, initial-IsWellFormed}
use ca.Processor.{
  Processor, Ending, ended, out_of_fuel, initial, init_register, should_halt, count_cycle, cycle,
  after_cycle, run,
}
use ca.Processor.EndMarker.{bus_ticked-eq-pipeline}

-- What holds of the processor when the loop ends, or is cut off.
abbrev pub EndsWith : (Processor → Type 0) → Ending → Type 0
EndsWith P (ended b p) = P p
EndsWith P Ending.undefined = Unit
EndsWith P (out_of_fuel p) = P p

count_cycle-Leaves :
    (P : Pipeline → Type 0) (p : Processor) (o : Outcome Pipeline (Unit {0}))
    → Leaves P o
    → Leaves (λ q. P q.pipeline) (count_cycle p o)
unfolding count_cycle
count_cycle-Leaves P p (returns u q) h = h
count_cycle-Leaves P p (throws e q) h = h
count_cycle-Leaves P p Base.Outcome.undefined h = tt

processor_cycle-IsWellFormed :
    (p : Processor) → IsWellFormed p.pipeline → Leaves (λ q. IsWellFormed q.pipeline) (cycle p)
unfolding cycle
processor_cycle-IsWellFormed p w = rw (bus_ticked-eq-pipeline p) (
    count_cycle-Leaves IsWellFormed p (OneStage.cycle p.pipeline) (cycle-IsWellFormed p.pipeline w))

after_cycle-EndsWith :
    (P : Processor → Type 0) (continue : Processor → Ending) (t : Bool)
    (o : Outcome Processor (Unit {0}))
    → Leaves P o
    → ((q : Processor) → P q → EndsWith P (continue q))
    → EndsWith P (after_cycle continue t o)
unfolding after_cycle
after_cycle-EndsWith P continue t (returns u q) h k = k q h
after_cycle-EndsWith P continue t (throws e q) h k = h
after_cycle-EndsWith P continue t Base.Outcome.undefined h k = tt

pub run-IsWellFormed :
    (fuel : ℕ) (test_mode : Bool) (p : Processor)
    → IsWellFormed p.pipeline
    → EndsWith (λ q. IsWellFormed q.pipeline) (run fuel test_mode p)
unfolding run
run-IsWellFormed zero t p w = ground arith
run-IsWellFormed (suc fuel) t p w =
    elim (should_halt p)
      as (λ b.
        EndsWith (λ q. IsWellFormed q.pipeline)
          (elim b [ true ↦ ended true p | false ↦ after_cycle (run fuel t) t (cycle p) ])) [
            | true ↦ w
            | false ↦
                after_cycle-EndsWith (λ q. IsWellFormed q.pipeline) (run fuel t) t (cycle p)
                  (processor_cycle-IsWellFormed p w) (run-IsWellFormed fuel t)
          ]

pub initial-IsWellFormed_lem :
    (memories : List Client) (entrypoint : ℕ) (pipelining : Bool)
    → IsWellFormed (initial memories entrypoint pipelining).pipeline
unfolding initial RegFile.initial
initial-IsWellFormed_lem memories entrypoint pipelining =
    initial-IsWellFormed pipelining entrypoint RegFile.initial _ refl (omega arith)

pub init_register-IsWellFormed :
    (i v : ℕ) (p q : Processor)
    → IsWellFormed p.pipeline
    → init_register i v p ≡ ok q
    → IsWellFormed q.pipeline
unfolding init_register RegFile.write_register
init_register-IsWellFormed i v p q w e =
    ground (arith, length-set p.pipeline.regfile.registers (i - 1) v)
