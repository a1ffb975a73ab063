-- ===== src/Processor/Programs/Texts.antt =====
-- Texts given as lists of addresses and words.
use ca.Base.{
  ℕ, ◌≡◌, sym, subst, ◌∙◌, false, Option, none, some, List, [], ◌∷◌, returns, inl, inr, ==_cases,
  ==_iff, if_true, if_false, ok, ◌==◌, if◌then◌else◌,
}
use ca.Base.Int.{ℤ}
use ca.Decoder.{get_immediate}
use ca.Decoder.Fields.{decoder}
use ca.Memory.{word}
use ca.Bus
use ca.Bus.{MemoryBus, Client, memory, serial, sys_status}
use ca.Stages.Fetch.{test_end_marker}
use ca.Pipeline.Text.{IsLegal}
use ca.Pipeline.Overlapped.Program.{some-inj}

-- A text from a list of addresses and words.
abbrev pub word_at : List (ℕ × ℕ) → ℕ → Option ℕ
word_at [] a = none
word_at ((k, w) ∷ rest) a = if a == k then some w else word_at rest a

abbrev pub All : (ℕ → ℕ → Type 0) → List (ℕ × ℕ) → Type 0
All P [] = Unit
All P ((k, w) ∷ rest) = P k w × All P rest

pub at_words :
    (P : ℕ → ℕ → Type 0) (entries : List (ℕ × ℕ)) (a w : ℕ)
    → All P entries
    → word_at entries a ≡ some w
    → P a w
at_words P [] a w all e = cc
at_words P ((k, v) ∷ rest) a w all e = elim (==_cases a k) [
  | inl same ↦
      let found : v ≡ w = some-inj (sym (if_true _ _ ((==_iff a k).1 same)) ∙ e) in
      subst (P a) found (subst (λ b. P b v) (sym same) (all.0))
  | inr other ↦ at_words P rest a w (all.1) (sym (if_false _ _ other) ∙ e)
]

abbrev pub IsReadable : MemoryBus → ℕ → ℕ → Type 0
IsReadable bus a w = (b : MemoryBus) × (Bus.read word a bus ≡ returns w b)

abbrev pub IsInstruction : ℕ → ℕ → Type 0
IsInstruction a w =
    ((w == test_end_marker) ≡ false) × ((imm : ℤ) × (get_immediate (decoder w) ≡ ok imm))

pub IsLegal-text :
    (entries : List (ℕ × ℕ)) (stop status : ℕ)
    → All IsInstruction entries
    → IsLegal (record { words = word_at entries; stop = stop; status = status })
IsLegal-text entries stop status all = record {
  unmarked = λ a w e. (at_words IsInstruction entries a w all e).0;
  decodes = λ a w e. (at_words IsInstruction entries a w all e).1;
}
