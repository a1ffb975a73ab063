-- ===== src/Base/Regex.antt =====
-- `std::regex_match` on the patterns that the program uses: sets of bytes, sequences, alternatives,
-- greedy repetition of a set, and groups that capture. It backtracks, and takes the first match in
-- the order of the grammar of ECMAScript.
pub mod Laws
use ca.Base.{
  ℕ, suc, ◌+◌, ◌-◌, ◌≡◌, refl, ap, ◌∙◌, arith, Bool, true, false, Option, none, some, List, [], ◌∷◌,
  ◌++◌, if◌then◌else◌, leb, length,
}
use ca.Base.Text.{Text}

pub data Regex : Type 0 where
  one : (ℕ → Bool) → Regex
  many : (ℕ → Bool) → Regex
  sequence : Regex → Regex → Regex
  either : Regex → Regex → Regex
  group : Regex → Regex

abbrev pub or_else {ℓ} : {A : Type ℓ} → Option A → Option A → Option A
or_else (some a) other = some a
or_else none other = other

-- The part of `s` before its tail `rest`.
abbrev pub consumed : Text → Text → Text
consumed [] rest = []
consumed (c ∷ s) rest = if leb (suc (length s)) (length rest) then [] else c ∷ consumed s rest

abbrev pub Next : Type 0
Next = Text → List Text → Option (List Text)

unfoldable pub many_match : (ℕ → Bool) → Text → List Text → Next → Option (List Text)
many_match c [] groups next = next [] groups
many_match c (x ∷ s) groups next = elim (c x) [
  | true ↦ or_else (many_match c s groups next) (next (x ∷ s) groups)
  | false ↦ next (x ∷ s) groups
]

unfoldable pub one_match : (ℕ → Bool) → Text → List Text → Next → Option (List Text)
one_match c [] groups next = none
one_match c (x ∷ s) groups next = if c x then next s groups else none

-- The groups that a match from here captures, in the order in which they close.
unfoldable pub match_from : Regex → Text → List Text → Next → Option (List Text)
unfolding many_match one_match
match_from (one c) s groups next = one_match c s groups next
match_from (many c) s groups next = many_match c s groups next
match_from (sequence a b) s groups next =
    match_from a s groups λ rest groups'. match_from b rest groups' next
match_from (either a b) s groups next =
    or_else (match_from a s groups next) (match_from b s groups next)
match_from (group a) s groups next =
    match_from a s groups λ rest groups'. next rest (groups' ++ consumed s rest ∷ [])

-- The end of the text.
abbrev pub at_end : Next
at_end [] groups = some groups
at_end (c ∷ s) groups = none

unfoldable pub regex_match : Text → Regex → Option (List Text)
unfolding match_from
regex_match s r = match_from r s [] at_end
