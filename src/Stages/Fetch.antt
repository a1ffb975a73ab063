-- ===== src/Stages/Fetch.antt =====
-- InstructionFetchStage of src/stages.h and src/stages.cc.
use ca.Base.{
  ℕ, ◌+◌, ◌-◌, true, not, ◌&&◌, Exception, returns, throws, lift, ◌>>=◌, ◌>>◌,
  instruction_fetch_failure, test_end_marker_encountered, ltb, ◌==◌, if◌then◌else◌, u64, get,
  modify,
}
use ca.MemoryControl.{set_instruction_address, set_instruction_size, get_value}
use ca.Stages.{Pipeline, FetchStage, Step, on_bus, catch, nop_instruction}

-- src/arch.h
abbrev pub test_end_marker : ℕ
test_end_marker = 0xddffccff

abbrev with_fetch : FetchStage → Pipeline → Pipeline
with_fetch f p = record p { fetch = f }

-- What `propagate` does with the word that it read.
unfoldable pub accept_word : ℕ → Step
accept_word word p =
    let f = p.fetch in
    if word == test_end_marker
    then (if p.pipelining
        then returns tt (record p {
          fetch = record f {
            end_marker_seen = true;
            end_marker_countdown = 5;
            end_marker_pc = p.pc;
            fetch_pc = p.pc;
            fetched_instruction = nop_instruction;
          };
          control = record (p.control) { flush_fetch = true };
        })
        else throws (test_end_marker_encountered p.pc) p)
    else returns tt (with_fetch (record f { fetch_pc = p.pc; fetched_instruction = word }) p)

-- The body of the `try` block.
unfoldable pub fetch_word : Step
fetch_word = do
  p ← get
  let im = set_instruction_address p.pc p.fetch.instruction_memory
  modify (with_fetch (record (p.fetch) { instruction_memory = im }))
  im' ← lift (set_instruction_size 4 im)
  modify (with_fetch (record (p.fetch) { instruction_memory = im' }))
  word ← on_bus (get_value im')
  accept_word word

-- The two `catch` clauses.
unfoldable pub on_exception : Exception → Step
on_exception (test_end_marker_encountered addr) p = throws (test_end_marker_encountered addr) p
on_exception _ p = throws (instruction_fetch_failure p.pc) p

unfoldable pub propagate : Step
propagate p =
    if p.fetch.end_marker_seen
    then returns tt
        (with_fetch (record (p.fetch) { fetch_pc = p.pc; fetched_instruction = nop_instruction }) p)
    else catch fetch_word on_exception p

-- The end of `clockPulse` when pipelining: the pipeline drains, then the test ends.
unfoldable pub count_down : Step
count_down p =
    let f = p.fetch in
    if f.end_marker_seen
    then (if ltb 0 f.end_marker_countdown
        then returns tt
            (with_fetch (record f { end_marker_countdown = f.end_marker_countdown - 1 }) p)
        else throws (test_end_marker_encountered f.end_marker_pc) p)
    else returns tt p

-- The update of the pipeline register and the PC when pipelining.
unfoldable pub advance : Pipeline → Pipeline
advance p =
    if p.control.flush_fetch
    then record p { if_id = record { pc = 0; instruction_word = nop_instruction } }
    else if not p.control.stall_fetch && not p.fetch.end_marker_seen
    then record p {
      if_id = record { pc = p.fetch.fetch_pc; instruction_word = p.fetch.fetched_instruction };
      pc = u64 (p.pc + 4);
    }
    else p

unfoldable pub clock_pulse : Step
clock_pulse p =
    if p.pipelining
    then count_down (advance p)
    else let q = record p {
      if_id = record { pc = p.pc; instruction_word = p.fetch.fetched_instruction };
      pc = u64 (p.pc + 4);
    } in
      if q.fetch.end_marker_seen && not (ltb 0 q.fetch.end_marker_countdown)
      then throws (test_end_marker_encountered q.fetch.end_marker_pc) q
      else returns tt q
