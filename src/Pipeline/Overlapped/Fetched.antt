-- ===== src/Pipeline/Overlapped/Fetched.antt =====
-- What the fetch stage does in a cycle, and the word that it fetches.
use ca.Base.{ℕ, ◌≡◌, sym, ap, ◌∙◌, arith, true, false, returns, ◌==◌}
use ca.Memory.{word}
use ca.Decoder.Fields.{decoder}
use ca.Bus
use ca.Bus.{MemoryBus}
use ca.Stages.{Pipeline}
use ca.Stages.Fetch.{test_end_marker}
use ca.Stages.Decode.{has_hazard}
use ca.Pipeline.Overlapped.FetchCycle.{
  IsRunning, with_word, with_marker, with_nop, fetch_clocked, counted_down, fetch_word_lem,
  fetch_marker_lem, fetch_nop_lem, fetch_clock_lem, drain_clock_lem,
}
use ca.Pipeline.Overlapped.Whole.{Goes, FetchDone, Succeeds, clocked}
use ca.Pipeline.Overlapped.After.{fetched_after}
use ca.Pipeline.Text.{next}
use ca.Pipeline.Overlapped.Represents.{fetched_at}

-- What the fetch stage does while it runs, when it reads the end marker, and after that.
unfoldable pub word_done :
    (p : Pipeline) (w : ℕ) (bus : MemoryBus)
    → IsRunning p
    → Bus.read word p.pc p.bus ≡ returns w bus
    → (w == test_end_marker) ≡ false
    → FetchDone p
word_done p w bus run fetched unmarked = record {
  after = with_word w p;
  final = with_word w p;
  flush = false;
  bus = bus;
  done = fetch_word_lem p w bus run fetched unmarked;
  clocked = λ q pipelined same goes.
      fetch_clock_lem q (pipelined, ap (λ f. f.end_marker_seen) same ∙ run.1)
      ∙ ap (λ f. returns tt (fetch_clocked f q)) same;
}

unfoldable pub marker_done :
    (p : Pipeline) (bus : MemoryBus)
    → IsRunning p
    → Bus.read word p.pc p.bus ≡ returns test_end_marker bus
    → FetchDone p
marker_done p bus run fetched = record {
  after = with_marker p;
  final = counted_down (with_marker p);
  flush = true;
  bus = bus;
  done = fetch_marker_lem p bus run fetched;
  clocked = λ q pipelined same goes.
      drain_clock_lem q pipelined (ap (λ f. f.end_marker_seen) same)
        (rw (ap (λ f. f.end_marker_countdown) same) (omega arith))
      ∙ ap (λ f. returns tt (fetch_clocked (counted_down f) q)) same;
}

unfoldable pub nop_done :
    (p : Pipeline) → p.pipelining ≡ true → p.fetch.end_marker_seen ≡ true → FetchDone p
nop_done p pipelined seen = record {
  after = with_nop p;
  final = counted_down (with_nop p);
  flush = false;
  bus = p.bus;
  done = fetch_nop_lem p seen;
  clocked = λ q pipelined' same goes.
      drain_clock_lem q pipelined' (ap (λ f. f.end_marker_seen) same ∙ seen)
        (rw (ap (λ f. f.end_marker_countdown) same) (goes seen))
      ∙ ap (λ f. returns tt (fetch_clocked (counted_down f) q)) same;
}

-- In a cycle without a stall, a transfer or the end marker, the word that was fetched moves on.
pub word_after :
    (p : Pipeline) (s : Succeeds p) (w : ℕ) (bus : MemoryBus) (run : IsRunning p)
    (fetched : Bus.read word p.pc p.bus ≡ returns w bus) (unmarked : (w == test_end_marker) ≡ false)
    → s.fetch ≡ word_done p w bus run fetched unmarked
    → s.executed.0.pc_write_enable ≡ false
    → has_hazard p.id_ex (decoder p.if_id.instruction_word) ≡ false
    → ((clocked p s).if_id ≡ fetched_at p.pc w) × ((clocked p s).pc ≡ next p.pc)
unfolding word_done
word_after p s w bus run fetched unmarked same stays no_hazard =
    let (moved, new_pc) =
      fetched_after p s stays (ap (λ f. f.flush) same) no_hazard
        (ap (λ f. f.after.end_marker_seen) same ∙ run.1) in
    (moved ∙ ap (λ f. fetched_at f.after.fetch_pc f.after.fetched_instruction) same, new_pc)

pub word-IsRunning :
    (p : Pipeline) (s : Succeeds p) (w : ℕ) (bus : MemoryBus) (run : IsRunning p)
    (fetched : Bus.read word p.pc p.bus ≡ returns w bus) (unmarked : (w == test_end_marker) ≡ false)
    → s.fetch ≡ word_done p w bus run fetched unmarked
    → IsRunning (clocked p s)
unfolding word_done
word-IsRunning p s w bus run fetched unmarked same =
    (run.0, ap (λ f. f.final.end_marker_seen) same ∙ run.1)

pub word-Goes :
    (p : Pipeline) (s : Succeeds p) (w : ℕ) (bus : MemoryBus) (run : IsRunning p)
    (fetched : Bus.read word p.pc p.bus ≡ returns w bus) (unmarked : (w == test_end_marker) ≡ false)
    → s.fetch ≡ word_done p w bus run fetched unmarked
    → Goes s.fetch.after
unfolding word_done
word-Goes p s w bus run fetched unmarked same seen =
    let impossible : true ≡ false = sym seen ∙ ap (λ f. f.after.end_marker_seen) same ∙ run.1 in cc
