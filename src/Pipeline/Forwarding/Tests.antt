-- ===== src/Pipeline/Forwarding/Tests.antt =====
-- Two instructions on their way that both write register 5.
use ca.Base.{◌≡◌, refl, arith, true, ok, returns, ◌>>◌, []}
use ca.RegFile
use ca.RegFile.{read_register}
use ca.RegFile.Laws.{initial-IsComplete}
use ca.MemoryControl
use ca.Control.{ControlSignals, no_signals}
use ca.Stages.{ExM, MWb, Pipeline}
use ca.Stages.Decode.{bypass}
use ca.Stages.Execute.{forward, ex_stage_can_forward}
use ca.Pipeline
use ca.Pipeline.Overlapped.Represents.{Accesses}
use ca.Pipeline.Forwarding.{
  write_back, access_and_write_back, bypass-eq-write_back, forward-eq-write_back,
}

abbrev writes_register : ControlSignals
writes_register = record no_signals { reg_write = true }

abbrev nearer : ExM
nearer = record { pc = 0x44; alu_result = 7; write_data = 0; rd = 5; control = writes_register }

abbrev farther : MWb
farther = record { pc = 0x40; alu_result = 3; mem_data = 0; rd = 5; control = writes_register }

abbrev both_ahead : Pipeline
both_ahead =
    record (Pipeline.initial true 0x48 RegFile.initial
      (record { clients = []; bytes_read = 0; bytes_written = 0; cerr = [] })) {
        ex_m = nearer;
        m_wb = farther;
      }

both_ahead-Accesses : Accesses both_ahead.ex_m both_ahead.bus 0 both_ahead.bus
unfolding MemoryControl.get_data_out MemoryControl.data_clock_pulse
both_ahead-Accesses = record { read_bus = both_ahead.bus; reads = refl; writes = refl }

still_zero : read_register 5 both_ahead.regfile ≡ ok 0
unfolding read_register RegFile.initial Pipeline.initial
still_zero = refl

bypass-eq-write_back_example :
    (q : Pipeline) × (write_back both_ahead ≡ returns tt q)
    × (read_register 5 q.regfile ≡ ok (bypass farther 5 true 0))
unfolding Pipeline.initial
bypass-eq-write_back_example =
    bypass-eq-write_back both_ahead 5 0 initial-IsComplete (omega arith) (omega arith) still_zero

-- The nearer instruction's value is the one forwarded.
nearer_forwarded : forward nearer farther 5 0 ≡ 7
unfolding forward ex_stage_can_forward
nearer_forwarded = refl

forward-eq-write_back_example :
    (q : Pipeline) × ((access_and_write_back >> write_back) both_ahead ≡ returns tt q)
    × (read_register 5 q.regfile ≡ ok (forward nearer farther 5 0))
unfolding Pipeline.initial
forward-eq-write_back_example =
    forward-eq-write_back both_ahead 5 0 0 both_ahead.bus initial-IsComplete (omega arith)
      (omega arith) (omega arith) both_ahead-Accesses refl still_zero
