-- ===== src/Pipeline/EndMarker.antt =====
-- The end of a test in pipelined mode.
use ca.Base.{
  ℕ, zero, suc, ◌≡◌, arith, true, false, returns, IfReturns, IfReturns-and_then, ◌>>◌, if_true,
}
use ca.Memory.{word}
use ca.MemoryControl.{set_instruction_size, set_instruction_address, get_value}
use ca.Bus
use ca.Bus.{MemoryBus}
use ca.Stages.{Pipeline, reset_control}
use ca.Stages.Fetch
use ca.Stages.Fetch.{test_end_marker}
use ca.Stages.EndMarker.{
  Draining, Drained, rest_propagate-KeepsDraining, rest_clock_pulse-KeepsDraining,
  fetch_propagate-KeepsDraining, fetch_clock_pulse-Drained,
}
use ca.Pipeline
use ca.Stages.Decode
use ca.Stages.Execute
use ca.Stages.Access
use ca.Stages.WriteBack

rest_clock_pulse-Drained :
    (c : ℕ) (p : Pipeline)
    → Drained c p
    → IfReturns (Drained c) (
        (Decode.clock_pulse
            >> (Execute.clock_pulse >> (Access.clock_pulse >> WriteBack.clock_pulse)))
          p)
rest_clock_pulse-Drained zero p d = absurd d
rest_clock_pulse-Drained (suc c) p d = rest_clock_pulse-KeepsDraining c p d

clock_pulse-Drained :
    (c : ℕ) (p : Pipeline) → Draining c p → IfReturns (Drained c) (Pipeline.clock_pulse p)
unfolding Pipeline.clock_pulse Pipeline.clock_pulse_all
clock_pulse-Drained c p d = simp (d.0) (
    IfReturns-and_then (Drained c) (Drained c) (Fetch.clock_pulse p) _
      (fetch_clock_pulse-Drained c p d) (λ _ q d'. rest_clock_pulse-Drained c q d'))

propagate_pipelined :
    (p : Pipeline)
    → p.pipelining ≡ true
    → Pipeline.propagate p ≡ Pipeline.propagate_all (record p { control = reset_control })
unfolding Pipeline.propagate
propagate_pipelined p e = if_true _ _ e

propagate-Draining :
    (c : ℕ) (p : Pipeline) → Draining c p → IfReturns (Draining c) (Pipeline.propagate p)
unfolding Pipeline.propagate_all
propagate-Draining c p d =
    let q : Pipeline = record p { control = reset_control } in
    rw (propagate_pipelined p d.0) (
      IfReturns-and_then (Draining c) (Draining c) (Fetch.propagate q) _
        (fetch_propagate-KeepsDraining c q d) (λ _ r d'. rest_propagate-KeepsDraining c r d'))

-- A whole cycle counts down or throws.
pub cycle-Drained :
    (c : ℕ) (p : Pipeline)
    → Draining c p
    → IfReturns (Drained c) ((Pipeline.propagate >> Pipeline.clock_pulse) p)
cycle-Drained c p d =
    IfReturns-and_then (Draining c) (Drained c) (Pipeline.propagate p) (λ _. Pipeline.clock_pulse)
      (propagate-Draining c p d) (λ _ q d'. clock_pulse-Drained c q d')

fetch_marker-Draining :
    (p : Pipeline) (bus : MemoryBus)
    → p.pipelining ≡ true
    → p.fetch.end_marker_seen ≡ false
    → Bus.read word p.pc p.bus ≡ returns test_end_marker bus
    → IfReturns (Draining 5) (Fetch.propagate p)
unfolding Fetch.propagate Fetch.fetch_word Fetch.accept_word set_instruction_size
    set_instruction_address get_value
fetch_marker-Draining p bus e₁ e₂ e₃ = ground arith

-- The cycle in which the marker is fetched begins the countdown, also if that cycle takes a branch
-- that should discard what was fetched.
pub marker_cycle-Draining :
    (p : Pipeline) (bus : MemoryBus)
    → p.pipelining ≡ true
    → p.fetch.end_marker_seen ≡ false
    → Bus.read word p.pc p.bus ≡ returns test_end_marker bus
    → IfReturns (Draining 4) ((Pipeline.propagate >> Pipeline.clock_pulse) p)
unfolding Pipeline.propagate_all
marker_cycle-Draining p bus e₁ e₂ e₃ =
    let q : Pipeline = record p { control = reset_control } in
    rw (propagate_pipelined p e₁) (
      IfReturns-and_then (Draining 5) (Draining 4) (Pipeline.propagate_all q)
        (λ _. Pipeline.clock_pulse)
        (IfReturns-and_then (Draining 5) (Draining 5) (Fetch.propagate q) _
          (fetch_marker-Draining q bus e₁ e₂ e₃) (λ _ r d. rest_propagate-KeepsDraining 5 r d))
        (λ _ r d. clock_pulse-Drained 5 r d))
