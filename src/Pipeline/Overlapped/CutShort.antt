-- ===== src/Pipeline/Overlapped/CutShort.antt =====
-- Where the end marker is fetched too early: the pipeline ends the test before the program does.
use ca.Base.{ℕ, ◌≡◌, ◌≢◌, ◌⊎◌, inl, inr, sym, ap, ◌∙◌, true, returns, some}
use ca.Decoder.Fields.{decoder}
use ca.RegFile.{RegisterFile}
use ca.RegFile.Laws.{IsComplete}
use ca.Bus.{MemoryBus}
use ca.Stages.{Pipeline, empty_id_ex}
use ca.Stages.Decode.{has_hazard}
use ca.Pipeline
use ca.Pipeline.Instruction.{instruction}
use ca.Pipeline.Text.{Text, IsLegal, Holds, next}
use ca.Pipeline.Completes.{waits_for}
use ca.Pipeline.Ends.{EndsWithin, goes_on}
use ca.Pipeline.Overlapped.Represents.{Represents}
use ca.Pipeline.Overlapped.Ending.{marker_losing}
use ca.Pipeline.Overlapped.Drain.{drain_cycle, drains-EndsWithin}
use ca.Pipeline.Overlapped.Program.{some-inj, initial-Represents}
use ca.Pipeline.Overlapped.Fills.{from_front}

-- The marker stands two words behind an instruction `w` that leads to `pc'`, and either this is
-- somewhere else or the instruction in between waits for what `w` loads.
pub record IsCutShort (text : Text) (pc w pc' : ℕ) : Type 0 where
  pub between : ℕ
  pub here : text.words pc ≡ some w
  pub behind : text.words (next pc) ≡ some between
  pub stops : next (next pc) ≡ text.stop
  pub why : (waits_for w between ≡ true) ⊎ (pc' ≢ next pc)

module _ (text : Text) (legal : IsLegal text) where
  ends_early :
      (p : Pipeline) (pc w pc' : ℕ) (rf rf' : RegisterFile) (bus bus' : MemoryBus)
      → Represents text p pc rf bus
      → IsCutShort text pc w pc'
      → Holds text bus
      → instruction pc rf bus ≡ returns (pc', rf') bus'
      → Holds text bus'
      → EndsWithin text rf' bus' 8 p
  unfolding has_hazard
  ends_early p pc w pc' rf rf' bus bus' r cut holds e holds' =
      from_front text legal 6 p pc rf rf' bus bus' r holds (w, cut.here) (cut.between, cut.behind)
        (λ q running behind front.
          let here : front.here ≡ w = some-inj (sym front.at_pc ∙ cut.here) in
          let between : front.behind ≡ cut.between = some-inj (sym front.at_next ∙ cut.behind) in
          let hazard : has_hazard q.id_ex (decoder front.behind) ≡ waits_for w cut.between =
            ap
              (λ i.
                has_hazard (record empty_id_ex { rd = i.rd; control = i.control })
                  (decoder front.behind))
              front.issue.in_execute
            ∙ ap (λ v. waits_for v front.behind) here
            ∙ ap (waits_for w) between in
          let why : (has_hazard q.id_ex (decoder front.behind) ≡ true) ⊎ (pc' ≢ next pc) =
            elim cut.why [ inl waits ↦ inl (hazard ∙ waits) | inr away ↦ inr away ] in
          let (t, done, h) =
            marker_losing text legal q rf bus running behind holds (front.new_pc ∙ cut.stops) pc pc'
              rf' bus' front why e in
          let (t', done', h', _, _) = drain_cycle text 3 t rf' bus' holds' h in
          goes_on 5 q t (behind.holds.2) done (
            goes_on 4 t t' (h.behind.holds.2) done' (drains-EndsWithin text t' rf' bus' holds' h')))

  pub initial_ends_early :
      (pc w pc' : ℕ) (rf rf' : RegisterFile) (bus bus' : MemoryBus)
      → IsComplete rf
      → IsCutShort text pc w pc'
      → Holds text bus
      → instruction pc rf bus ≡ returns (pc', rf') bus'
      → Holds text bus'
      → EndsWithin text rf' bus' 8 (Pipeline.initial true pc rf bus)
  initial_ends_early pc w pc' rf rf' bus bus' complete cut holds e holds' =
      ends_early (Pipeline.initial true pc rf bus) pc w pc' rf rf' bus bus'
        (initial-Represents text legal pc rf bus complete holds) cut holds e holds'
