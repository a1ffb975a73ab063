-- ===== src/Pipeline/Text.antt =====
-- The instructions of a program that runs, as a function of their addresses.
use ca.Base.{
  ℕ, ◌+◌, ◌≡◌, sym, ap, ◌∙◌, Bool, false, ok, returns, Option, none, some, get_elem?, ◌==◌, u64,
}
use ca.Base.Int.{ℤ}
use ca.Memory.{word}
use ca.Decoder.{get_immediate}
use ca.Decoder.Fields.{decoder}
use ca.Bus
use ca.Bus.{MemoryBus, Client, sys_status}
use ca.SysStatus
use ca.Stages.Fetch.{test_end_marker}
use ca.Pipeline.SameMemory.{SameMemory, read-Alike}

-- With the address of the end marker, and the index of the system status device on the bus.
pub record Text : Type 0 where
  pub words : ℕ → Option ℕ
  pub stop : ℕ
  pub status : ℕ

-- A client that was asked to halt the system.
abbrev pub asks_halt : Option Client → Bool
asks_halt (some (sys_status s)) = SysStatus.should_halt s
asks_halt (some _) = false
asks_halt none = false

abbrev pub next : ℕ → ℕ
next pc = u64 (pc + 4)

-- The words are instructions that the decoder knows, and no end markers.
pub record IsLegal (text : Text) : Type 0 where
  pub unmarked : (a w : ℕ) → text.words a ≡ some w → (w == test_end_marker) ≡ false
  pub decodes : (a w : ℕ) → text.words a ≡ some w → (imm : ℤ) × (get_immediate (decoder w) ≡ ok imm)

-- Memory holds the text, with the end marker, and nothing asked for a halt.
abbrev pub Holds : Text → MemoryBus → Type 0
Holds text bus =
    ((a w : ℕ) → text.words a ≡ some w → (b : MemoryBus) × (Bus.read word a bus ≡ returns w b))
    × ((b : MemoryBus) × (Bus.read word text.stop bus ≡ returns test_end_marker b))
    × (asks_halt (get_elem? bus.clients text.status) ≡ false)

readable-SameMemory :
    (b b' : MemoryBus) (a w : ℕ)
    → SameMemory b b'
    → (c : MemoryBus) × (Bus.read word a b ≡ returns w c)
    → (c : MemoryBus) × (Bus.read word a b' ≡ returns w c)
readable-SameMemory b b' a w same (c, fetched) =
    let (c', again, _) = read-Alike word a b b' same c w fetched in (c', again)

pub Holds-SameMemory :
    (text : Text) (b b' : MemoryBus) → SameMemory b b' → Holds text b → Holds text b'
Holds-SameMemory text b b' same h = (
  λ a w e. readable-SameMemory b b' a w same (h.0 a w e),
  readable-SameMemory b b' text.stop test_end_marker same h.1,
  ap (λ cs. asks_halt (get_elem? cs text.status)) (sym same.0) ∙ h.2,
)

-- The instruction at `pc` and the two behind it, which the pipeline fetches before it knows whether
-- the first one is a transfer.
abbrev pub Covers : Text → ℕ → Type 0
Covers text pc =
    ((w : ℕ) × (text.words pc ≡ some w))
    × ((w : ℕ) × (text.words (next pc) ≡ some w))
    × ((w : ℕ) × (text.words (next (next pc)) ≡ some w))
