-- ===== src/Processor.antt =====
-- src/processor.h and src/processor.cc: the main loop. The bus is a field of the pipeline's record,
-- and the pointer `sysStatus` is the index of that client. A program may run forever, so the loop
-- takes a number of cycles that it may run.
mod Tests
pub mod EndMarker
pub mod WellFormed
pub mod Halting
pub mod Programs
use ca.Base.{
  ℕ, zero, suc, ◌+◌, ◌%◌, Outcome, returns, throws, Result, ok, throw, Exception, Bool, true, false,
  Option, none, some, List, [], ◌∷◌, ◌++◌, get_elem?, length, ◌==◌, if◌then◌else◌, u64, ◌>>◌,
  test_end_marker_encountered, instruction_fetch_failure, bind,
}
use ca.Base
use ca.Serial
use ca.SysStatus
use ca.Bus
use ca.Bus.{MemoryBus, Client, serial, sys_status, add_client}
use ca.RegFile
use ca.Stages.{Pipeline}
use ca.Pipeline

pub record Processor : Type 0 where
  pub n_cycles : ℕ
  pub pipeline : Pipeline
  pub sys_status_client : ℕ

-- The constructor, on the memories and the entry point of the program's ELF file. The framebuffer
-- is not built in.
unfoldable pub initial : List Client → ℕ → Bool → Processor
initial memories entrypoint pipelining =
    let bus : MemoryBus = record {
      clients = memories;
      bytes_read = 0;
      bytes_written = 0;
      cerr = [];
    } in
    let with_serial = add_client (serial (record { base = 0x200 })) bus in
    let with_status =
      add_client (sys_status (record { base = 0x270; should_halt_flag = false })) with_serial in
    record {
      n_cycles = 0;
      pipeline = Pipeline.initial pipelining entrypoint RegFile.initial with_status;
      sys_status_client = length memories + 1;
    }

unfoldable pub init_register : ℕ → ℕ → Processor → Result Processor
init_register regnum value p =
    bind (RegFile.write_register regnum value p.pipeline.regfile)
      λ rf. ok (record p { pipeline = record (p.pipeline) { regfile = rf } })

unfoldable pub get_register : ℕ → Processor → Result ℕ
get_register regnum p = RegFile.read_register regnum p.pipeline.regfile

-- `sysStatus->shouldHalt()`. Another client at that index cannot be.
abbrev client_halts : Option Client → Bool
client_halts (some (sys_status s)) = SysStatus.should_halt s
client_halts (some _) = false
client_halts none = false

unfoldable pub should_halt : Processor → Bool
should_halt p = client_halts (get_elem? p.pipeline.bus.clients p.sys_status_client)

-- The pipeline, after the bus clock, which runs at a fifth of the frequency.
unfoldable pub bus_ticked : Processor → Pipeline
bus_ticked p =
    let line = p.pipeline in
    if p.n_cycles % 5 == 0 then record line { bus = Bus.clock_pulse line.bus } else line

-- The processor after the pipeline's cycle, which is counted if it returns.
unfoldable pub count_cycle : Processor → Outcome Pipeline (Unit {0}) → Outcome Processor (Unit {0})
count_cycle p (returns u q) =
    returns tt (record p { pipeline = q; n_cycles = u64 (p.n_cycles + 1) })
count_cycle p (throws e q) = throws e (record p { pipeline = q })
count_cycle p Base.Outcome.undefined = Base.Outcome.undefined

-- The `try` block of one round of the loop.
unfoldable pub cycle : Processor → Outcome Processor (Unit {0})
cycle p = count_cycle p ((Pipeline.propagate >> Pipeline.clock_pulse) (bus_ticked p))

-- The value that the `catch` clauses return.
unfoldable pub verdict : Bool → Exception → Bool
verdict test_mode (test_end_marker_encountered addr) = test_mode
verdict test_mode (instruction_fetch_failure addr) = test_mode
verdict test_mode _ = false

-- How `run` ends, with the processor as it is then.
pub data Ending : Type 0 where
  ended : Bool → Processor → Ending
  undefined : Ending
  out_of_fuel : Processor → Ending

-- The rest of a round, with the loop as the continuation: the `catch` clauses return.
unfoldable pub after_cycle : (Processor → Ending) → Bool → Outcome Processor (Unit {0}) → Ending
after_cycle continue test_mode (returns u q) = continue q
after_cycle continue test_mode (throws e q) = ended (verdict test_mode e) q
after_cycle continue test_mode Base.Outcome.undefined = Ending.undefined

unfoldable pub run : ℕ → Bool → Processor → Ending
run zero test_mode p = if should_halt p then ended true p else out_of_fuel p
run (suc fuel) test_mode p = elim (should_halt p) [
  | true ↦ ended true p
  | false ↦ after_cycle (run fuel test_mode) test_mode (cycle p)
]
