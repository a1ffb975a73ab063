-- ===== src/Pipeline/WellFormed.antt =====
-- src/pipeline.cc: a cycle of either mode on a well-formed pipeline.
use ca.Base.{ℕ, ◌<◌, arith, Bool, Leaves, Leaves-and_then, ◌==◌, if_elim}
use ca.Bus.{MemoryBus}
use ca.RegFile.{RegisterFile}
use ca.RegFile.Laws.{IsComplete}
use ca.Stages.{Pipeline, reset_control}
use ca.Stages.WellFormed.{
  Carries, IsWellFormed, KeepsWellFormed, KeepsWellFormed->>, fetch_propagate-KeepsWellFormed,
  fetch_clock_pulse-KeepsWellFormed, decode_propagate-KeepsWellFormed,
  decode_clock_pulse-KeepsWellFormed, execute_propagate-KeepsWellFormed,
  execute_clock_pulse-KeepsWellFormed, access_propagate-KeepsWellFormed,
  access_clock_pulse-KeepsWellFormed, write_back_propagate-KeepsWellFormed,
  write_back_clock_pulse-KeepsWellFormed,
}
use ca.Pipeline
use ca.Pipeline.OneStage.{cycle}

propagate_all-KeepsWellFormed : KeepsWellFormed Pipeline.propagate_all
unfolding Pipeline.propagate_all
propagate_all-KeepsWellFormed = KeepsWellFormed->> _ _ fetch_propagate-KeepsWellFormed (
    KeepsWellFormed->> _ _ decode_propagate-KeepsWellFormed (
      KeepsWellFormed->> _ _ execute_propagate-KeepsWellFormed (
        KeepsWellFormed->> _ _ access_propagate-KeepsWellFormed
          write_back_propagate-KeepsWellFormed)))

clock_pulse_all-KeepsWellFormed : KeepsWellFormed Pipeline.clock_pulse_all
unfolding Pipeline.clock_pulse_all
clock_pulse_all-KeepsWellFormed = KeepsWellFormed->> _ _ fetch_clock_pulse-KeepsWellFormed (
    KeepsWellFormed->> _ _ decode_clock_pulse-KeepsWellFormed (
      KeepsWellFormed->> _ _ execute_clock_pulse-KeepsWellFormed (
        KeepsWellFormed->> _ _ access_clock_pulse-KeepsWellFormed
          write_back_clock_pulse-KeepsWellFormed)))

stage_propagate-KeepsWellFormed : (n : ℕ) → KeepsWellFormed (Pipeline.stage_propagate n)
unfolding Pipeline.stage_propagate
stage_propagate-KeepsWellFormed n p w =
    if_elim (Leaves IsWellFormed) (n == 0) _ _ (fetch_propagate-KeepsWellFormed p w) (
      if_elim (Leaves IsWellFormed) (n == 1) _ _ (decode_propagate-KeepsWellFormed p w) (
        if_elim (Leaves IsWellFormed) (n == 2) _ _ (execute_propagate-KeepsWellFormed p w) (
          if_elim (Leaves IsWellFormed) (n == 3) _ _ (access_propagate-KeepsWellFormed p w) (
            if_elim (Leaves IsWellFormed) (n == 4) _ _ (write_back_propagate-KeepsWellFormed p w)
              tt))))

stage_clock_pulse-KeepsWellFormed : (n : ℕ) → KeepsWellFormed (Pipeline.stage_clock_pulse n)
unfolding Pipeline.stage_clock_pulse
stage_clock_pulse-KeepsWellFormed n p w =
    if_elim (Leaves IsWellFormed) (n == 0) _ _ (fetch_clock_pulse-KeepsWellFormed p w) (
      if_elim (Leaves IsWellFormed) (n == 1) _ _ (decode_clock_pulse-KeepsWellFormed p w) (
        if_elim (Leaves IsWellFormed) (n == 2) _ _ (execute_clock_pulse-KeepsWellFormed p w) (
          if_elim (Leaves IsWellFormed) (n == 3) _ _ (access_clock_pulse-KeepsWellFormed p w) (
            if_elim (Leaves IsWellFormed) (n == 4) _ _ (write_back_clock_pulse-KeepsWellFormed p w)
              tt))))

propagate-KeepsWellFormed : KeepsWellFormed Pipeline.propagate
unfolding Pipeline.propagate
propagate-KeepsWellFormed p w =
    let q : Pipeline = record p { control = reset_control } in
    let v : IsWellFormed q = ground arith in
    if_elim (Leaves IsWellFormed) p.pipelining _ _ (propagate_all-KeepsWellFormed q v)
      (stage_propagate-KeepsWellFormed p.current_stage q v)

clock_pulse-KeepsWellFormed : KeepsWellFormed Pipeline.clock_pulse
unfolding Pipeline.clock_pulse
clock_pulse-KeepsWellFormed p w =
    if_elim (Leaves IsWellFormed) p.pipelining _ _ (clock_pulse_all-KeepsWellFormed p w) (
      Leaves-and_then IsWellFormed (Pipeline.stage_clock_pulse p.current_stage p) _
        (stage_clock_pulse-KeepsWellFormed p.current_stage p w) (λ _ q v. ground arith))

-- In both modes, a cycle of the whole pipeline that starts from a well-formed state, with a
-- complete register file and all register numbers that the stages hold below 32, leaves a
-- well-formed state, whether it returns or throws, unless its behaviour is undefined.
pub cycle-IsWellFormed : (p : Pipeline) → IsWellFormed p → Leaves IsWellFormed (cycle p)
cycle-IsWellFormed =
    KeepsWellFormed->> Pipeline.propagate Pipeline.clock_pulse propagate-KeepsWellFormed
      clock_pulse-KeepsWellFormed

pub initial-IsWellFormed :
    (pipelining : Bool) (pc : ℕ) (rf : RegisterFile) (bus : MemoryBus)
    → IsComplete rf
    → (rf.rs1 < 32) × (rf.rs2 < 32) × (rf.rd < 32)
    → IsWellFormed (Pipeline.initial pipelining pc rf bus)
unfolding Pipeline.initial Carries
initial-IsWellFormed pipelining pc rf bus c ports = ground arith
