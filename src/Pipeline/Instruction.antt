-- ===== src/Pipeline/Instruction.antt =====
-- The execution of one instruction as a whole, without stages: what a cycle of every stage adds up
-- to.
use ca.Base.{
  ℕ, ◌+◌, ◌≡◌, ap, ◌∙◌, arith, false, ok, lift, returns, raise, pure, Action, returns_of-and_then,
  ok_of-lift, ◌>>=◌, ◌>>◌, ◌==◌, if◌then◌else◌, u64, test_end_marker_encountered,
}
use ca.Base.Int.{ℤ}
use ca.Memory.{word}
use ca.Alu.{Alu, AluOp}
use ca.Decoder.{get_immediate}
use ca.Decoder.Fields.{decoder}
use ca.RegFile.{RegisterFile}
use ca.RegFile.Laws.{written}
use ca.MemoryControl.{get_data_out, data_clock_pulse}
use ca.Bus
use ca.Bus.{MemoryBus}
use ca.Stages.{IdEx}
use ca.Stages.Fetch.{test_end_marker}
use ca.Stages.Execute.{Executed, execute_instruction}
use ca.Pipeline.OneStage.{issued, port}

abbrev pub idle_alu : Alu
idle_alu = record { a = 0; b = 0; op = AluOp.nop }

-- The register file after an instruction.
abbrev pub written_back : IdEx → ℕ → ℕ → RegisterFile → RegisterFile
written_back i result loaded rf =
    if i.control.reg_write
    then written i.rd (if i.control.mem_to_reg then loaded else result) rf
    else rf

-- An instruction word at `pc`, as an action on the bus: it gives the next PC and the registers.
unfoldable pub execute_word : ℕ → RegisterFile → ℕ → Action MemoryBus (ℕ × RegisterFile)
execute_word pc rf w = do
  imm ← lift (get_immediate (decoder w))
  let i = issued pc w rf imm
  r ← lift (execute_instruction i idle_alu i.read_data1 i.read_data2)
  let dm = port i.control r.0.result i.read_data2
  loaded ← get_data_out i.control.mem_sign_extend dm
  data_clock_pulse dm
  pure (
    if r.0.pc_write_enable then r.0.next_pc else u64 (pc + 4),
    written_back i r.0.result loaded rf,
  )

-- The instruction that is in memory at `pc`.
unfoldable pub instruction : ℕ → RegisterFile → Action MemoryBus (ℕ × RegisterFile)
instruction pc rf = do
  w ← Bus.read word pc
  if w == test_end_marker then raise (test_end_marker_encountered pc) else execute_word pc rf w

-- What a successful execution did.
pub record Effects (pc w : ℕ) (rf : RegisterFile) (bus : MemoryBus) (pc' : ℕ) (rf' : RegisterFile)
    (bus' : MemoryBus) : Type 0 where
  pub imm : ℤ
  pub executed : Executed × Alu
  pub loaded : ℕ
  pub read_bus : MemoryBus
  pub decodes : get_immediate (decoder w) ≡ ok imm
  pub executes :
      let i = issued pc w rf imm in
      execute_instruction i idle_alu i.read_data1 i.read_data2 ≡ ok executed
  pub reads :
      let i = issued pc w rf imm in
      get_data_out i.control.mem_sign_extend (port i.control executed.0.result i.read_data2) bus
      ≡ returns loaded read_bus
  pub writes :
      let i = issued pc w rf imm in
      data_clock_pulse (port i.control executed.0.result i.read_data2) read_bus ≡ returns tt bus'
  pub new_pc : pc' ≡ (if executed.0.pc_write_enable then executed.0.next_pc else u64 (pc + 4))
  pub new_registers : rf' ≡ written_back (issued pc w rf imm) executed.0.result loaded rf

pub instruction_inv :
    (pc pc' : ℕ) (rf rf' : RegisterFile) (bus bus' : MemoryBus)
    → instruction pc rf bus ≡ returns (pc', rf') bus'
    → (w : ℕ) × (b : MemoryBus) × (Bus.read word pc bus ≡ returns w b)
      × ((w == test_end_marker) ≡ false)
      × (execute_word pc rf w b ≡ returns (pc', rf') bus')
unfolding instruction
instruction_inv pc pc' rf rf' bus bus' e = ground arith

returns_inv :
    (a a' : ℕ) (r r' : RegisterFile) (s s' : MemoryBus)
    → pure {A = ℕ × RegisterFile} (a, r) s ≡ returns (a', r') s'
    → (a' ≡ a) × (r' ≡ r) × (s ≡ s')
returns_inv a a' r r' s s' e = ground arith

pub execute_word-Effects :
    (pc w pc' : ℕ) (rf rf' : RegisterFile) (bus bus' : MemoryBus)
    → execute_word pc rf w bus ≡ returns (pc', rf') bus'
    → Effects pc w rf bus pc' rf' bus'
unfolding execute_word
execute_word-Effects pc w pc' rf rf' bus bus' e =
    let (imm, b₁, e₁, k₁) = returns_of-and_then (lift (get_immediate (decoder w)) bus) _ _ _ e in
    let (decodes, same₁) = ok_of-lift (get_immediate (decoder w)) bus b₁ imm e₁ in
    let i = issued pc w rf imm in
    let run = execute_instruction i idle_alu i.read_data1 i.read_data2 in
    let (executed, b₂, e₂, k₂) = returns_of-and_then (lift run b₁) _ _ _ k₁ in
    let (executes, same₂) = ok_of-lift run b₁ b₂ executed e₂ in
    let dm = port i.control executed.0.result i.read_data2 in
    let (loaded, b₃, e₃, k₃) =
      returns_of-and_then (get_data_out i.control.mem_sign_extend dm b₂) _ _ _ k₂ in
    let (u, b₄, e₄, k₄) = returns_of-and_then (data_clock_pulse dm b₃) _ _ _ k₃ in
    let (at_pc, registers, same₄) = returns_inv _ pc' _ rf' b₄ bus' k₄ in
    record {
      imm = imm;
      executed = executed;
      loaded = loaded;
      read_bus = b₃;
      decodes = decodes;
      executes = executes;
      reads = ap (get_data_out i.control.mem_sign_extend dm) (same₁ ∙ same₂) ∙ e₃;
      writes = e₄ ∙ ap (returns tt) same₄;
      new_pc = at_pc;
      new_registers = registers;
    }
