-- ===== src/Pipeline/Completes.antt =====
-- Programs that come to their end marker, as sequences of instructions.
use ca.Base.{ℕ, zero, suc, ◌≡◌, Bool, false, ◌||◌, returns, some}
use ca.Decoder.{get_rd}
use ca.Decoder.Fields.{decoder}
use ca.RegFile.{RegisterFile}
use ca.Bus.{MemoryBus}
use ca.Control.{set_from_instruction}
use ca.Stages.{empty_id_ex}
use ca.Stages.Decode.{has_hazard}
use ca.Pipeline.Instruction.{instruction}
use ca.Pipeline.Text.{Text, Holds, Covers, next}

-- A branch or a jump.
abbrev pub is_transfer : ℕ → Bool
is_transfer w = let c = set_from_instruction (decoder w) in c.is_branch || c.is_jump

-- The second instruction reads a register that the first one loads.
abbrev pub waits_for : ℕ → ℕ → Bool
waits_for w w' =
    has_hazard
      (record empty_id_ex { rd = get_rd (decoder w); control = set_from_instruction (decoder w) })
      (decoder w')

-- A run of a number of instructions, one after the other, from a PC, registers and a memory to the
-- end marker, with the registers and the memory that it ends with. The pipeline fetches two
-- instructions ahead, so the marker is not behind a transfer that may be taken, except as the target
-- or directly behind the last instruction; and the last instruction does not wait for a load.
pub data Completes (text : Text)
    : ℕ → ℕ → RegisterFile → MemoryBus → RegisterFile → MemoryBus → Type 0 where
  at_stop :
      (pc : ℕ) (rf : RegisterFile) (bus : MemoryBus)
      → pc ≡ text.stop
      → Holds text bus
      → Completes text zero pc rf bus rf bus
  last_one :
      (pc w : ℕ) (rf rf' : RegisterFile) (bus bus' : MemoryBus)
      → text.words pc ≡ some w
      → next pc ≡ text.stop
      → Holds text bus
      → instruction pc rf bus ≡ returns (text.stop, rf') bus'
      → Holds text bus'
      → Completes text 1 pc rf bus rf' bus'
  last_two :
      (pc w w' : ℕ) (rf rf₁ rf' : RegisterFile) (bus bus₁ bus' : MemoryBus)
      → text.words pc ≡ some w
      → text.words (next pc) ≡ some w'
      → next (next pc) ≡ text.stop
      → is_transfer w ≡ false
      → waits_for w w' ≡ false
      → Holds text bus
      → instruction pc rf bus ≡ returns (next pc, rf₁) bus₁
      → Holds text bus₁
      → instruction (next pc) rf₁ bus₁ ≡ returns (text.stop, rf') bus'
      → Holds text bus'
      → Completes text 2 pc rf bus rf' bus'
  step :
      (n pc pc₁ : ℕ) (rf rf₁ rf' : RegisterFile) (bus bus₁ bus' : MemoryBus)
      → Covers text pc
      → Holds text bus
      → instruction pc rf bus ≡ returns (pc₁, rf₁) bus₁
      → Completes text n pc₁ rf₁ bus₁ rf' bus'
      → Completes text (suc n) pc rf bus rf' bus'

pub Completes-Holds :
    (text : Text) (n pc : ℕ) (rf rf' : RegisterFile) (bus bus' : MemoryBus)
    → Completes text n pc rf bus rf' bus'
    → Holds text bus
Completes-Holds text n pc rf rf' bus bus' (at_stop _ _ _ _ holds) = holds
Completes-Holds text n pc rf rf' bus bus' (last_one _ _ _ _ _ _ _ _ holds _ _) = holds
Completes-Holds text n pc rf rf' bus bus' (last_two _ _ _ _ _ _ _ _ _ _ _ _ _ _ holds _ _ _ _) =
    holds
Completes-Holds text n pc rf rf' bus bus' (step _ _ _ _ _ _ _ _ _ _ holds _ _) = holds
