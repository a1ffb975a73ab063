-- ===== src/Stages/EndMarker.antt =====
-- src/stages.cc: the stages after the end marker of a test has been fetched.
use ca.Base.{ℕ, zero, suc, ◌≡◌, refl, arith, true, IfReturns, IfReturns-and_then, ◌>>◌}
use ca.Stages.{Pipeline, Step}
use ca.Stages.Fetch
use ca.Stages.Decode
use ca.Stages.Execute
use ca.Stages.Access
use ca.Stages.WriteBack

-- The state of the fetch stage is its own: no other stage changes it.
abbrev KeepsFetch : Step → Type 0
KeepsFetch m =
    (p : Pipeline) → IfReturns (λ q. (q.fetch ≡ p.fetch) × (q.pipelining ≡ p.pipelining)) (m p)

decode_propagate-KeepsFetch : KeepsFetch Decode.propagate
unfolding Decode.propagate
decode_propagate-KeepsFetch p = ground arith

decode_clock_pulse-KeepsFetch : KeepsFetch Decode.clock_pulse
unfolding Decode.clock_pulse Decode.issue
decode_clock_pulse-KeepsFetch p = ground arith

execute_propagate-KeepsFetch : KeepsFetch Execute.propagate
unfolding Execute.propagate
execute_propagate-KeepsFetch p = ground arith

execute_clock_pulse-KeepsFetch : KeepsFetch Execute.clock_pulse
unfolding Execute.clock_pulse
execute_clock_pulse-KeepsFetch p = ground arith

access_propagate-KeepsFetch : KeepsFetch Access.propagate
unfolding Access.propagate Access.operate
access_propagate-KeepsFetch p = ground arith

access_clock_pulse-KeepsFetch : KeepsFetch Access.clock_pulse
unfolding Access.clock_pulse
access_clock_pulse-KeepsFetch p = ground arith

write_back_propagate-KeepsFetch : KeepsFetch WriteBack.propagate
unfolding WriteBack.propagate
write_back_propagate-KeepsFetch p = (refl, refl)

write_back_clock_pulse-KeepsFetch : KeepsFetch WriteBack.clock_pulse
unfolding WriteBack.clock_pulse
write_back_clock_pulse-KeepsFetch p = ground arith

-- The marker was seen, and `c` clock pulses are left.
abbrev pub Draining : ℕ → Pipeline → Type 0
Draining c p =
    (p.pipelining ≡ true) × (p.fetch.end_marker_seen ≡ true) × (p.fetch.end_marker_countdown ≡ c)

abbrev KeepsDraining : Step → Type 0
KeepsDraining m = (c : ℕ) (p : Pipeline) → Draining c p → IfReturns (Draining c) (m p)

KeepsFetch-KeepsDraining : (m : Step) → KeepsFetch m → KeepsDraining m
KeepsFetch-KeepsDraining m keep c p d = ground (arith, keep p)

KeepsDraining->> : (m k : Step) → KeepsDraining m → KeepsDraining k → KeepsDraining (m >> k)
KeepsDraining->> m k hm hk c p d =
    IfReturns-and_then (Draining c) (Draining c) (m p) (λ _. k) (hm c p d) (λ _ q d'. hk c q d')

-- The stages behind the fetch stage.
pub rest_propagate-KeepsDraining :
    KeepsDraining
      (Decode.propagate >> (Execute.propagate >> (Access.propagate >> WriteBack.propagate)))
rest_propagate-KeepsDraining =
    KeepsDraining->> _ _ (KeepsFetch-KeepsDraining _ decode_propagate-KeepsFetch) (
      KeepsDraining->> _ _ (KeepsFetch-KeepsDraining _ execute_propagate-KeepsFetch) (
        KeepsDraining->> _ _ (KeepsFetch-KeepsDraining _ access_propagate-KeepsFetch)
          (KeepsFetch-KeepsDraining _ write_back_propagate-KeepsFetch)))

pub rest_clock_pulse-KeepsDraining :
    KeepsDraining
      (Decode.clock_pulse >> (Execute.clock_pulse >> (Access.clock_pulse >> WriteBack.clock_pulse)))
rest_clock_pulse-KeepsDraining =
    KeepsDraining->> _ _ (KeepsFetch-KeepsDraining _ decode_clock_pulse-KeepsFetch) (
      KeepsDraining->> _ _ (KeepsFetch-KeepsDraining _ execute_clock_pulse-KeepsFetch) (
        KeepsDraining->> _ _ (KeepsFetch-KeepsDraining _ access_clock_pulse-KeepsFetch)
          (KeepsFetch-KeepsDraining _ write_back_clock_pulse-KeepsFetch)))

pub fetch_propagate-KeepsDraining : KeepsDraining Fetch.propagate
unfolding Fetch.propagate
fetch_propagate-KeepsDraining c p d = ground arith

-- After a clock pulse there is one left fewer; from none there is no way on.
abbrev pub Drained : ℕ → Pipeline → Type 0
Drained zero p = ⊥
Drained (suc c) p = Draining c p

-- A clock pulse counts down, whether the instruction is flushed or stalled, and throws at 0.
pub fetch_clock_pulse-Drained :
    (c : ℕ) (p : Pipeline) → Draining c p → IfReturns (Drained c) (Fetch.clock_pulse p)
unfolding Fetch.clock_pulse Fetch.advance Fetch.count_down
fetch_clock_pulse-Drained zero p d = ground arith
fetch_clock_pulse-Drained (suc c) p d = ground arith
