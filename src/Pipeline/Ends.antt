-- ===== src/Pipeline/Ends.antt =====
-- How the cycles of a test end.
use ca.Base.{
  ℕ, zero, suc, ◌≤◌, ◌≡◌, get_elem?, arith, false, Outcome, returns, throws,
  test_end_marker_encountered,
}
use ca.RegFile.{RegisterFile}
use ca.Bus.{MemoryBus}
use ca.Stages.{Pipeline}
use ca.Pipeline.OneStage.{cycle}
use ca.Pipeline.SameMemory.{SameMemory}
use ca.Pipeline.Text.{Text, asks_halt}

-- The registers and the memory are final.
abbrev pub Final : RegisterFile → MemoryBus → Pipeline → Type 0
Final rf bus p = (p.regfile.registers ≡ rf.registers) × SameMemory p.bus bus

-- The outcome is the end of the test, in a state of which `P` holds.
abbrev pub EndsTest : (Pipeline → Type 0) → Outcome Pipeline (Unit {0}) → Type 0
EndsTest P (throws (test_end_marker_encountered a) q) = P q
EndsTest P _ = ⊥

-- Nothing asked for a halt.
abbrev pub IsAwake : Text → Pipeline → Type 0
IsAwake text p = asks_halt (get_elem? p.bus.clients text.status) ≡ false

-- The cycles up to the end of the test, at most `k` of them, in none of which a halt was asked for.
pub data EndsWithin (text : Text) (rf : RegisterFile) (bus : MemoryBus)
    : ℕ → Pipeline → Type 0 where
  ends_now :
      (k : ℕ) (p : Pipeline)
      → IsAwake text p
      → EndsTest (Final rf bus) (cycle p)
      → EndsWithin text rf bus (suc k) p
  goes_on :
      (k : ℕ) (p q : Pipeline)
      → IsAwake text p
      → cycle p ≡ returns tt q
      → EndsWithin text rf bus k q
      → EndsWithin text rf bus (suc k) p

pub EndsWithin-le :
    (text : Text) (rf : RegisterFile) (bus : MemoryBus) (j k : ℕ) (p : Pipeline)
    → j ≤ k
    → EndsWithin text rf bus j p
    → EndsWithin text rf bus k p
EndsWithin-le text rf bus zero k p le h = elim h [ ]
EndsWithin-le text rf bus (suc j) zero p le h = absurd (omega arith)
EndsWithin-le text rf bus (suc j) (suc k) p le (ends_now _ _ awake ends) = ends_now k p awake ends
EndsWithin-le text rf bus (suc j) (suc k) p le (goes_on _ _ q awake e h) =
    goes_on k p q awake e (EndsWithin-le text rf bus j k q (omega arith) h)
