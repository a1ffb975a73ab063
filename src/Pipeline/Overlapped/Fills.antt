-- ===== src/Pipeline/Overlapped/Fills.antt =====
-- The cycles in which the pipeline fills up, before an instruction with two others behind it.
use ca.Base.{ℕ, suc, ◌≡◌, arith, some}
use ca.RegFile.{RegisterFile}
use ca.Bus.{MemoryBus}
use ca.Stages.{Pipeline}
use ca.Pipeline.Overlapped.FetchCycle.{IsRunning}
use ca.Pipeline.Text.{Text, IsLegal, Holds, next}
use ca.Pipeline.Ends.{EndsWithin, EndsWithin-le, goes_on}
use ca.Pipeline.Overlapped.Represents.{
  Behind, Executing, Decoding, Fetching, Front, executing, decoding, fetching, Represents,
}
use ca.Pipeline.Overlapped.Bubbles.{Fetching-cycle, Decoding-cycle}

module _ (text : Text) (legal : IsLegal text) where
  -- The pipeline fills up.
  pub from_fetching :
      (k : ℕ) (p : Pipeline) (pc w : ℕ) (rf rf' : RegisterFile) (bus bus' : MemoryBus)
      → IsRunning p
      → Behind text p rf bus
      → Holds text bus
      → Fetching p pc
      → text.words pc ≡ some w
      → ((q : Pipeline)
          → IsRunning q
          → Behind text q rf bus
          → Decoding text q pc
          → EndsWithin text rf' bus' k q)
      → EndsWithin text rf' bus' (suc k) p
  from_fetching k p pc w rf rf' bus bus' running behind holds front at_pc rest =
      let (q, e, running', behind', front') =
        Fetching-cycle text legal p rf bus running behind holds pc w front at_pc in
      goes_on k p q (behind.holds.2) e (rest q running' behind' front')

  pub from_decoding :
      (k : ℕ) (p : Pipeline) (pc w : ℕ) (rf rf' : RegisterFile) (bus bus' : MemoryBus)
      → IsRunning p
      → Behind text p rf bus
      → Holds text bus
      → Decoding text p pc
      → text.words (next pc) ≡ some w
      → ((q : Pipeline)
          → IsRunning q
          → Behind text q rf bus
          → Executing text q pc
          → EndsWithin text rf' bus' k q)
      → EndsWithin text rf' bus' (suc k) p
  from_decoding k p pc w rf rf' bus bus' running behind holds front at_next rest =
      let (q, e, running', behind', front') =
        Decoding-cycle text legal p rf bus running behind holds pc w front at_next in
      goes_on k p q (behind.holds.2) e (rest q running' behind' front')

  -- From where an instruction has two others behind it.
  pub from_front :
      (k : ℕ) (p : Pipeline) (pc : ℕ) (rf rf' : RegisterFile) (bus bus' : MemoryBus)
      → Represents text p pc rf bus
      → Holds text bus
      → ((w : ℕ) × (text.words pc ≡ some w))
      → ((w : ℕ) × (text.words (next pc) ≡ some w))
      → ((q : Pipeline)
          → IsRunning q
          → Behind text q rf bus
          → Executing text q pc
          → EndsWithin text rf' bus' k q)
      → EndsWithin text rf' bus' (suc (suc k)) p
  from_front k p pc rf rf' bus bus' r holds here behind rest = front_of r.front
    where
      decoded :
          (q : Pipeline)
          → IsRunning q
          → Behind text q rf bus
          → Decoding text q pc
          → EndsWithin text rf' bus' (suc k) q
      decoded q running' behind' front =
          from_decoding k q pc (behind.0) rf rf' bus bus' running' behind' holds front (behind.1)
            rest

      front_of : Front text p pc → EndsWithin text rf' bus' (suc (suc k)) p
      front_of (executing front) =
          EndsWithin-le text rf' bus' k (suc (suc k)) p (omega arith)
            (rest p r.running r.behind front)
      front_of (decoding front) =
          EndsWithin-le text rf' bus' (suc k) (suc (suc k)) p (omega arith)
            (decoded p r.running r.behind front)
      front_of (fetching front) =
          from_fetching (suc k) p pc (here.0) rf rf' bus bus' r.running r.behind holds front
            (here.1) decoded
