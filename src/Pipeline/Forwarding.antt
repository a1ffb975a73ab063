-- ===== src/Pipeline/Forwarding.antt =====
-- src/stages.cc: the values that the decode and execute stages take from instructions ahead, against
-- the register file that the memory and write-back stages leave.
mod Tests
use ca.Base.{
  length, not, ℕ, ◌<◌, ◌≡◌, refl, sym, ap, ◌∙◌, arith, true, false, ◌&&◌, ok, ok-inj, returns, ◌>>◌,
  ◌==◌, if◌then◌else◌, subst,
}
use ca.Bus.{MemoryBus}
use ca.RegFile.{RegisterFile, read_register}
use ca.RegFile.Laws.{IsComplete, value, written, read_register-eq-value}
use ca.Stages.{Pipeline, Step}
use ca.Stages.Decode.{bypass}
use ca.Stages.Execute.{forward}
use ca.Stages.Access
use ca.Stages.WriteBack
use ca.Stages.Forwarding.{commit_write_back, bypass-eq-committed}
use ca.Pipeline.Overlapped.Cycle.{
  after_access, after_write_back, access_clocked, write_back_clocked, access_lem, write_back_lem,
  access_clock_lem, write_back_clock_lem,
}
use ca.Pipeline.Overlapped.Operands.{
  passed, commit-IsComplete, commit-registers, value-registers, forward-eq-value,
}
use ca.Pipeline.Overlapped.Represents.{Accesses}
use ca.Pipeline.Overlapped.Whole.{then_lem, port_writes}

-- The write-back stage by itself.
abbrev pub write_back : Step
write_back = WriteBack.propagate >> WriteBack.clock_pulse

-- A cycle of the memory and write-back stages.
abbrev pub access_and_write_back : Step
access_and_write_back =
    Access.propagate >> (WriteBack.propagate >> (Access.clock_pulse >> WriteBack.clock_pulse))

-- The register file that the write-back stage leaves.
stored : Pipeline → Pipeline
stored p = write_back_clocked (after_write_back p)

write_back-eq-stored : (p : Pipeline) → p.m_wb.rd < 32 → write_back p ≡ returns tt (stored p)
unfolding stored
write_back-eq-stored p h =
    then_lem WriteBack.propagate _ p (after_write_back p) (write_back_lem p)
    ∙ write_back_clock_lem (after_write_back p) h

stored-registers :
    (p : Pipeline) → (stored p).regfile.registers ≡ (commit_write_back p.m_wb p.regfile).registers
unfolding stored written
stored-registers p = ground arith

-- The register file that is left has the values of the one described.
reads_as :
    (rf rf' : RegisterFile) (rs x : ℕ)
    → IsComplete rf'
    → rf.registers ≡ rf'.registers
    → rs < 32
    → x ≡ value rf' rs
    → read_register rs rf ≡ ok x
reads_as rf rf' rs x c same h e =
    read_register-eq-value rf rs (ap length same ∙ c) h
    ∙ ap ok (value-registers rf rf' rs same ∙ sym e)

value_read :
    (rf : RegisterFile) (rs v : ℕ)
    → IsComplete rf
    → rs < 32
    → read_register rs rf ≡ ok v
    → v ≡ value rf rs
value_read rf rs v c h e = ok-inj (sym e ∙ read_register-eq-value rf rs c h)

-- For a complete register file and register numbers below 32: the write-back stage returns, and the
-- register then reads as the value that the decode stage passes on for it, where its instruction
-- uses the register and the register file still gives `v`.
pub bypass-eq-write_back :
    (p : Pipeline) (rs v : ℕ)
    → IsComplete p.regfile
    → p.m_wb.rd < 32
    → rs < 32
    → read_register rs p.regfile ≡ ok v
    → (q : Pipeline) × (write_back p ≡ returns tt q)
      × (read_register rs q.regfile ≡ ok (bypass p.m_wb rs true v))
bypass-eq-write_back p rs v c h bound e = (
  stored p,
  write_back-eq-stored p h,
  reads_as (stored p).regfile (commit_write_back p.m_wb p.regfile) rs _
      (commit-IsComplete p.m_wb p.regfile c) (stored-registers p) bound
      (ap (bypass p.m_wb rs true) (value_read p.regfile rs v c bound e)
        ∙ bypass-eq-committed p.m_wb p.regfile rs c h),
)

-- The state behind a cycle of the last two stages.
accessed : Pipeline → ℕ → MemoryBus → MemoryBus → Pipeline
accessed p loaded read_bus bus =
    write_back_clocked (access_clocked bus (after_write_back (after_access loaded read_bus p)))

access_and_write_back-eq-accessed :
    (p : Pipeline) (loaded : ℕ) (bus : MemoryBus) (a : Accesses p.ex_m p.bus loaded bus)
    → p.m_wb.rd < 32
    → access_and_write_back p ≡ returns tt (accessed p loaded a.read_bus bus)
unfolding accessed
access_and_write_back-eq-accessed p loaded bus a h =
    let at_access = after_access loaded a.read_bus p in
    let at_write_back = after_write_back at_access in
    then_lem Access.propagate (WriteBack.propagate >> (Access.clock_pulse >> WriteBack.clock_pulse))
      p at_access (access_lem p loaded a.read_bus bus a.reads a.writes)
    ∙ then_lem WriteBack.propagate (Access.clock_pulse >> WriteBack.clock_pulse) at_access
        at_write_back (write_back_lem at_access)
    ∙ then_lem Access.clock_pulse WriteBack.clock_pulse at_write_back
        (access_clocked bus at_write_back)
        (access_clock_lem at_write_back bus
          (port_writes p.ex_m p.access.data_memory a.read_bus bus a.writes))
    ∙ write_back_clock_lem (access_clocked bus at_write_back) h

accessed_lem :
    (p : Pipeline) (loaded : ℕ) (read_bus bus : MemoryBus)
    → let q = accessed p loaded read_bus bus in
      (q.m_wb ≡ passed p.ex_m loaded)
      × (q.regfile.registers ≡ (commit_write_back p.m_wb p.regfile).registers)
unfolding accessed written
accessed_lem p loaded read_bus bus = (refl, ground arith)

-- For a complete register file, register numbers below 32, and an instruction in the memory stage
-- whose access meets no error and which is no load into the source register: a cycle of the memory
-- and write-back stages returns, and so does the write-back stage after it, and the source register
-- then reads as the value that the execute stage forwards for it, where the register file still gives
-- `v`.
pub forward-eq-write_back :
    (p : Pipeline) (rs v loaded : ℕ) (bus : MemoryBus)
    → IsComplete p.regfile
    → p.ex_m.rd < 32
    → p.m_wb.rd < 32
    → rs < 32
    → Accesses p.ex_m p.bus loaded bus
    → (p.ex_m.control.mem_to_reg && not (p.ex_m.rd == 0) && p.ex_m.rd == rs) ≡ false
    → read_register rs p.regfile ≡ ok v
    → (q : Pipeline) × ((access_and_write_back >> write_back) p ≡ returns tt q)
      × (read_register rs q.regfile ≡ ok (forward p.ex_m p.m_wb rs v))
forward-eq-write_back p rs v loaded bus c he hm bound a no_load e =
    let q = accessed p loaded a.read_bus bus in
    let (moved, registers) = accessed_lem p loaded a.read_bus bus in
    let first = commit_write_back p.m_wb p.regfile in
    let c' : IsComplete first = commit-IsComplete p.m_wb p.regfile c in
    let second = commit_write_back (passed p.ex_m loaded) first in
    let same : (stored q).regfile.registers ≡ second.registers =
      stored-registers q
      ∙ ap (λ m. (commit_write_back m q.regfile).registers) moved
      ∙ commit-registers (passed p.ex_m loaded) q.regfile first registers in
    (
      stored q,
      then_lem access_and_write_back write_back p q
            (access_and_write_back-eq-accessed p loaded bus a hm)
          ∙ write_back-eq-stored q (subst (λ m. m.rd < 32) (sym moved) he),
      reads_as (stored q).regfile second rs _ (commit-IsComplete (passed p.ex_m loaded) first c')
          same bound
          (ap (forward p.ex_m p.m_wb rs) (value_read p.regfile rs v c bound e)
            ∙ forward-eq-value p.ex_m p.m_wb p.regfile rs loaded c he hm no_load),
    )
