-- ===== src/Pipeline/Program.antt =====
-- src/pipeline.cc without pipelining: many cycles against many instructions.
use ca.Base.{
  ℕ, zero, suc, ◌≡◌, refl, ap, ◌∙◌, arith, returns, pure, Returns, Returns-and_then, Action,
  returns_of-and_then, ◌>>◌, ◌>>=◌, length,
}
use ca.RegFile.{RegisterFile}
use ca.RegFile.Laws.{IsComplete, written-IsComplete}
use ca.Bus.{MemoryBus}
use ca.Stages.{Pipeline, Step, IdEx}
use ca.Pipeline.OneStage.{IsAt, issued}
use ca.Pipeline.Instruction.{instruction, written_back, instruction_inv, execute_word-Effects}
use ca.Pipeline.FiveCycles.{five_cycles, five_cycles_of_registers}

-- Several instructions in a row, each at the PC that the one before leaves.
unfoldable pub instructions : ℕ → ℕ → RegisterFile → Action MemoryBus (ℕ × RegisterFile)
instructions zero pc rf = pure (pc, rf)
instructions (suc n) pc rf = instruction pc rf >>= λ r. instructions n (r.0) (r.1)

unfoldable pub cycles : ℕ → Step
cycles zero = pure tt
cycles (suc n) = five_cycles >> cycles n

written_back-IsComplete :
    (i : IdEx) (result loaded : ℕ) (rf : RegisterFile)
    → IsComplete rf
    → IsComplete (written_back i result loaded rf)
written_back-IsComplete i result loaded rf c =
    ground (arith, written-IsComplete rf i.rd result c, written-IsComplete rf i.rd loaded c)

pub instruction-IsComplete :
    (pc pc' : ℕ) (rf rf' : RegisterFile) (bus bus' : MemoryBus)
    → IsComplete rf
    → instruction pc rf bus ≡ returns (pc', rf') bus'
    → IsComplete rf'
instruction-IsComplete pc pc' rf rf' bus bus' c e =
    let (w, b, fetched, unmarked, done) = instruction_inv pc pc' rf rf' bus bus' e in
    let x = execute_word-Effects pc w pc' rf rf' b bus' done in
    ap (λ f. length f.registers) x.new_registers
    ∙ written_back-IsComplete (issued pc w rf x.imm) x.executed.0.result x.loaded rf c

cycles_of_registers :
    (n : ℕ) (p : Pipeline) (rf : RegisterFile) (pc pc' : ℕ) (rf' : RegisterFile)
    (bus bus' : MemoryBus)
    → IsAt 0 p
    → IsComplete rf
    → (p.pc ≡ pc) × (p.regfile.registers ≡ rf.registers) × (p.bus ≡ bus)
    → instructions n pc rf bus ≡ returns (pc', rf') bus'
    → Returns
        (λ q. IsAt 0 q × (q.pc ≡ pc') × (q.regfile.registers ≡ rf'.registers) × (q.bus ≡ bus'))
        (cycles n p)
unfolding instructions cycles
cycles_of_registers zero p rf pc pc' rf' bus bus' at c (e_pc, e_regs, e_bus) e = ground arith
cycles_of_registers (suc n) p rf pc pc' rf' bus bus' at c (e_pc, e_regs, e_bus) e =
    let (r, b, first, rest) = returns_of-and_then (instruction pc rf bus) _ _ _ e in
    let here : instruction p.pc rf p.bus ≡ returns r b = rw (e_pc, e_bus) first in
    Returns-and_then _ _ (five_cycles p) _
      (five_cycles_of_registers p rf (r.0) (r.1) b at c e_regs here)
      λ _ q (at_q, q_pc, q_regs, q_bus).
        cycles_of_registers n q (r.1) (r.0) pc' rf' b bus' at_q
          (instruction-IsComplete p.pc (r.0) rf (r.1) p.bus b c here) (q_pc, q_regs, q_bus) rest

-- Without pipelining, from the first stage and with no end marker seen and a complete register
-- file: if a number of instructions in memory from the PC on, each executed as a whole at the PC
-- that the one before leaves, return a new PC, registers and bus, then five cycles for each of them
-- return, with exactly that PC, those registers and that bus, and back at the first stage.
pub cycles-instructions :
    (n : ℕ) (p : Pipeline) (pc' : ℕ) (rf' : RegisterFile) (bus' : MemoryBus)
    → IsAt 0 p
    → IsComplete p.regfile
    → instructions n p.pc p.regfile p.bus ≡ returns (pc', rf') bus'
    → Returns
        (λ q. IsAt 0 q × (q.pc ≡ pc') × (q.regfile.registers ≡ rf'.registers) × (q.bus ≡ bus'))
        (cycles n p)
cycles-instructions n p pc' rf' bus' at c e =
    cycles_of_registers n p p.regfile p.pc pc' rf' p.bus bus' at c (refl, refl, refl) e
