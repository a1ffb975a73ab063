-- ===== src/Pipeline/Overlapped/FetchCycle.antt =====
-- The fetch stage in a cycle of the pipelined mode, before, at and after the end marker.
use ca.Base.{
  ℕ, ◌+◌, ◌-◌, ◌<◌, ◌≡◌, arith, Bool, true, false, ◌||◌, returns, throws,
  test_end_marker_encountered, ◌==◌, if◌then◌else◌, u64,
}
use ca.Memory.{word}
use ca.MemoryControl.{set_instruction_size, set_instruction_address, get_value}
use ca.Bus
use ca.Bus.{MemoryBus}
use ca.Stages.{Pipeline, FetchStage, nop_instruction, reset_control}
use ca.Stages.Fetch
use ca.Stages.Fetch.{test_end_marker}

-- No marker was fetched.
abbrev pub IsRunning : Pipeline → Type 0
IsRunning p = (p.pipelining ≡ true) × (p.fetch.end_marker_seen ≡ false)

-- What `propagate` of the fetch stage leaves: its fields, the bus, and whether it flushes.
abbrev pub after_fetch : FetchStage → MemoryBus → Bool → Pipeline → Pipeline
after_fetch f bus flush p = record p {
  fetch = f;
  bus = bus;
  control = record (p.control) { flush_fetch = flush };
}

-- Its fields when a word is fetched.
abbrev pub with_word : ℕ → Pipeline → FetchStage
with_word w p = record (p.fetch) {
  instruction_memory = record { size = 4; addr = p.pc };
  fetch_pc = p.pc;
  fetched_instruction = w;
}

-- When the end marker is.
abbrev pub with_marker : Pipeline → FetchStage
with_marker p = record {
  instruction_memory = record { size = 4; addr = p.pc };
  fetch_pc = p.pc;
  fetched_instruction = nop_instruction;
  end_marker_seen = true;
  end_marker_countdown = 5;
  end_marker_pc = p.pc;
}

-- After the end marker was.
abbrev pub with_nop : Pipeline → FetchStage
with_nop p = record (p.fetch) { fetch_pc = p.pc; fetched_instruction = nop_instruction }

abbrev pub begun : Pipeline → Pipeline
begun p = record p { control = reset_control }

pub fetch_word_lem :
    (p : Pipeline) (w : ℕ) (bus : MemoryBus)
    → IsRunning p
    → Bus.read word p.pc p.bus ≡ returns w bus
    → (w == test_end_marker) ≡ false
    → Fetch.propagate (begun p) ≡ returns tt (after_fetch (with_word w p) bus false (begun p))
unfolding Fetch.propagate Fetch.fetch_word Fetch.accept_word set_instruction_size
    set_instruction_address get_value
fetch_word_lem p w bus run fetched unmarked = ground arith

pub fetch_marker_lem :
    (p : Pipeline) (bus : MemoryBus)
    → IsRunning p
    → Bus.read word p.pc p.bus ≡ returns test_end_marker bus
    → Fetch.propagate (begun p) ≡ returns tt (after_fetch (with_marker p) bus true (begun p))
unfolding Fetch.propagate Fetch.fetch_word Fetch.accept_word set_instruction_size
    set_instruction_address get_value
fetch_marker_lem p bus run fetched = ground arith

pub fetch_nop_lem :
    (p : Pipeline)
    → p.fetch.end_marker_seen ≡ true
    → Fetch.propagate (begun p) ≡ returns tt (after_fetch (with_nop p) p.bus false (begun p))
unfolding Fetch.propagate
fetch_nop_lem p seen = ground arith

-- The clock pulse of the fetch stage, with the fields that it leaves.
abbrev pub fetch_clocked : FetchStage → Pipeline → Pipeline
fetch_clocked f p =
    let waits = p.control.stall_fetch || p.fetch.end_marker_seen in
    record p {
      fetch = f;
      if_id =
          (if p.control.flush_fetch
            then record { pc = 0; instruction_word = nop_instruction }
            else if waits
            then p.if_id
            else record { pc = p.fetch.fetch_pc; instruction_word = p.fetch.fetched_instruction });
      pc = (if p.control.flush_fetch then p.pc else if waits then p.pc else u64 (p.pc + 4));
    }

pub fetch_clock_lem :
    (p : Pipeline) → IsRunning p → Fetch.clock_pulse p ≡ returns tt (fetch_clocked p.fetch p)
unfolding Fetch.clock_pulse Fetch.advance Fetch.count_down
fetch_clock_lem p run = ground arith

-- Once the marker was fetched, the clock pulse counts down, and throws at the end.
abbrev pub counted_down : FetchStage → FetchStage
counted_down f = record f { end_marker_countdown = f.end_marker_countdown - 1 }

pub drain_clock_lem :
    (p : Pipeline)
    → p.pipelining ≡ true
    → p.fetch.end_marker_seen ≡ true
    → 0 < p.fetch.end_marker_countdown
    → Fetch.clock_pulse p ≡ returns tt (fetch_clocked (counted_down p.fetch) p)
unfolding Fetch.clock_pulse Fetch.advance Fetch.count_down
drain_clock_lem p run seen left = ground arith

pub end_clock_lem :
    (p : Pipeline)
    → p.pipelining ≡ true
    → p.fetch.end_marker_seen ≡ true
    → p.fetch.end_marker_countdown ≡ 0
    → Fetch.clock_pulse p
      ≡ throws (test_end_marker_encountered p.fetch.end_marker_pc) (fetch_clocked p.fetch p)
unfolding Fetch.clock_pulse Fetch.advance Fetch.count_down
end_clock_lem p run seen left = ground arith
