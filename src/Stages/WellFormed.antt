-- ===== src/Stages/WellFormed.antt =====
-- src/stages.cc: what holds of the registers between the stages in every state, also in those that
-- an exception leaves.
use ca.Base.{
  ℕ, ◌+◌, ◌%◌, ◌/◌, ◌^◌, ◌*◌, ◌<◌, ◌≤◌, ◌≡◌, refl, arith, Bool, true, false, not, ◌&&◌, Outcome,
  Result, ok, throw, lift, and_then, returns, Leaves, Leaves-and_then, ◌>>=◌, ◌>>◌, length,
}
use ca.Base
use ca.Decoder.{InstructionDecoder, get_rd, get_rs1, get_rs2, set_instruction_word}
use ca.Decoder.Fields.{register_fields}
use ca.RegFile
use ca.RegFile.{RegisterFile}
use ca.RegFile.Laws.{IsComplete, clock_pulse-IsComplete}
use ca.Control.{ControlSignals, no_signals, set_from_instruction}
use ca.Control.Laws.{IsConsistent, set_from_instruction-IsConsistent}
use ca.Stages.{Pipeline, Step}
use ca.Stages.Fetch
use ca.Stages.Decode
use ca.Stages.Execute
use ca.Stages.Access
use ca.Stages.WriteBack

-- The destination and the signals of an instruction on its way.
unfoldable pub Carries : ℕ → ControlSignals → Type 0
Carries rd c = (rd < 32) × IsConsistent c

nothing-Carries : Carries 0 no_signals
unfolding Carries
nothing-Carries = ground arith

decoded-Carries : (d : InstructionDecoder) → Carries 0 (set_from_instruction d)
unfolding Carries
decoded-Carries d = (omega arith, set_from_instruction-IsConsistent d)

issued-Carries : (c : ControlSignals) (rd : ℕ) → Carries 0 c → rd < 32 → Carries rd c
unfolding Carries
issued-Carries c rd h fits = (fits, h.1)

pub record IsWellFormed (p : Pipeline) : Type 0 where
  pub complete : IsComplete p.regfile
  pub ports : (p.regfile.rs1 < 32) × (p.regfile.rs2 < 32) × (p.regfile.rd < 32)
  pub decoded : Carries 0 p.decode.decoded_control
  pub id_ex : Carries p.id_ex.rd p.id_ex.control
  pub sources : (p.id_ex.rs1 < 32) × (p.id_ex.rs2 < 32)
  pub execute : Carries p.execute.next_rd p.execute.next_control
  pub ex_m : Carries p.ex_m.rd p.ex_m.control
  pub access : Carries p.access.next_rd p.access.next_control
  pub m_wb : Carries p.m_wb.rd p.m_wb.control

abbrev pub KeepsWellFormed : Step → Type 0
KeepsWellFormed m = (p : Pipeline) → IsWellFormed p → Leaves IsWellFormed (m p)

pub KeepsWellFormed->> :
    (m k : Step) → KeepsWellFormed m → KeepsWellFormed k → KeepsWellFormed (m >> k)
KeepsWellFormed->> m k hm hk p w =
    Leaves-and_then IsWellFormed (m p) (λ _. k) (hm p w) (λ _ q v. hk q v)

pub Carries-bound : (rd : ℕ) (c : ControlSignals) → Carries rd c → rd < 32
unfolding Carries
Carries-bound rd c h = h.0

fields_bounds : (d : InstructionDecoder) → (get_rd d < 32) × (get_rs1 d < 32) × (get_rs2 d < 32)
fields_bounds d = omega (arith, register_fields d.instruction_word)

pub fetch_propagate-KeepsWellFormed : KeepsWellFormed Fetch.propagate
unfolding Fetch.propagate Fetch.fetch_word Fetch.accept_word Fetch.on_exception
fetch_propagate-KeepsWellFormed p w = ground arith

pub fetch_clock_pulse-KeepsWellFormed : KeepsWellFormed Fetch.clock_pulse
unfolding Fetch.clock_pulse Fetch.advance Fetch.count_down
fetch_clock_pulse-KeepsWellFormed p w = ground arith

pub decode_propagate-KeepsWellFormed : KeepsWellFormed Decode.propagate
unfolding Decode.propagate
decode_propagate-KeepsWellFormed p w =
    let d = set_instruction_word p.if_id.instruction_word p.decoder in
    ground (arith, fields_bounds d, decoded-Carries d)

pub decode_clock_pulse-KeepsWellFormed : KeepsWellFormed Decode.clock_pulse
unfolding Decode.clock_pulse Decode.issue
decode_clock_pulse-KeepsWellFormed p w = ground (
  arith,
  fields_bounds p.decoder,
  nothing-Carries,
  issued-Carries p.decode.decoded_control (get_rd p.decoder),
)

pub execute_propagate-KeepsWellFormed : KeepsWellFormed Execute.propagate
unfolding Execute.propagate
execute_propagate-KeepsWellFormed p w = ground arith

pub execute_clock_pulse-KeepsWellFormed : KeepsWellFormed Execute.clock_pulse
unfolding Execute.clock_pulse
execute_clock_pulse-KeepsWellFormed p w = ground arith

pub access_propagate-KeepsWellFormed : KeepsWellFormed Access.propagate
unfolding Access.propagate Access.operate
access_propagate-KeepsWellFormed p w = ground arith

pub access_clock_pulse-KeepsWellFormed : KeepsWellFormed Access.clock_pulse
unfolding Access.clock_pulse
access_clock_pulse-KeepsWellFormed p w = ground arith

pub write_back_propagate-KeepsWellFormed : KeepsWellFormed WriteBack.propagate
unfolding WriteBack.propagate
write_back_propagate-KeepsWellFormed p w = ground (arith, Carries-bound p.m_wb.rd p.m_wb.control)

with_regfile-IsWellFormed :
    (p : Pipeline) (rf : RegisterFile)
    → IsWellFormed p
    → IsComplete rf × (rf ≡ record (p.regfile) { registers = rf.registers })
    → IsWellFormed (record p { regfile = rf })
with_regfile-IsWellFormed p rf w h = ground arith

pub write_back_clock_pulse-KeepsWellFormed : KeepsWellFormed WriteBack.clock_pulse
unfolding WriteBack.clock_pulse
write_back_clock_pulse-KeepsWellFormed p w =
    written (RegFile.clock_pulse p.regfile) (clock_pulse-IsComplete p.regfile w.complete)
  where
    written :
        (r : Result RegisterFile)
        → ((rf : RegisterFile)
            → r ≡ ok rf
            → IsComplete rf × (rf ≡ record (p.regfile) { registers = rf.registers }))
        → Leaves IsWellFormed (and_then (lift r p) λ rf q. returns tt (record q { regfile = rf }))
    written (ok rf) h = with_regfile-IsWellFormed p rf w (h rf refl)
    written (throw e) h = w
    written Base.Result.undefined h = tt
