-- ===== src/Testing/RoundTrip.antt =====
-- Printed registers read back by src/testing.cc.
use native.Mathlib.Decide.{dec_lt}
use ca.Base.{
  ==_cases, ℕ, zero, suc, ◌+◌, ◌/◌, ◌%◌, ◌^◌, ◌≤◌, ◌<◌, ◌≡◌, refl, ap, ◌∙◌, arith, Bool, true, ◌||◌,
  Option, none, some, List, [], ◌∷◌, ◌++◌, ◌==◌, if◌then◌else◌, throw, invalid_register_name, ok,
}
use ca.Base.Text.{Text, is_digit}
use ca.Base.Regex.{
  one, many, sequence, either, group, Next, or_else, at_end, regex_match, match_from, one_match,
}
use ca.ConfigFile.{has_section, get_properties}
use ca.Base.Regex.Laws.{AllIn, consumed-append, match_from-last_group}
use ca.Base.Decimal.{to_string}
use ca.Base.Decimal.RoundTrip.{
  to_string-HasDigits, digits-small, digits-large, stoul-to_string, stoull_any-to_string,
  stoi-to_string,
}
use ca.Testing.{
  RegisterInit, register_init, init_regex, hexadecimal, byte, register_number, registers_of,
  get_registers, TestFile, regname_regex, check_names, validate_section,
}
use ca.Base.{inl, inr}

no_hexadecimal :
    (c : ℕ) (rest : Text) (groups : List Text) (next : Next)
    → AllIn is_digit rest
    → match_from hexadecimal (c ∷ rest) groups next ≡ none
unfolding match_from one_match
no_hexadecimal c [] groups next h = ground arith
no_hexadecimal c (d ∷ rest) groups next h = ground (arith, h.0)

-- What follows the register's number.
abbrev value_part : Next
unfolding match_from
value_part rest groups =
    match_from
      (sequence (byte b'=') (group (either hexadecimal (sequence (one is_digit) (many is_digit)))))
      rest groups at_end

value_part-digits :
    (c : ℕ) (rest : Text) (groups : List Text)
    → is_digit c ≡ true
    → AllIn is_digit rest
    → value_part (b'=' ∷ c ∷ rest) groups ≡ some (groups ++ (c ∷ rest) ∷ [])
unfolding match_from one_match
value_part-digits c rest groups hc h =
    rw (no_hexadecimal c rest groups _ h)
      (match_from-last_group is_digit c rest groups _ at_end hc h refl)

value_part-to_string :
    (v : ℕ) (groups : List Text)
    → value_part (b'=' ∷ to_string v) groups ≡ some (groups ++ to_string v ∷ [])
value_part-to_string v groups =
    let h = to_string-HasDigits v in
    rw h.parts
      (value_part-digits h.first h.rest groups (ground (arith, h.first_digit)) h.rest_digits)

abbrev pub is_r : ℕ → Bool
is_r c = c == b'r' || c == b'R'

or_else-some : {A : Type 0} (o other : Option A) (a : A) → o ≡ some a → or_else o other ≡ some a
or_else-some o other a h = rw h refl

one_digit_matches :
    (c d v : ℕ)
    → is_r c ≡ true
    → is_digit d ≡ true
    → regex_match (c ∷ d ∷ b'=' ∷ to_string v) init_regex ≡ some ((d ∷ []) ∷ to_string v ∷ [])
unfolding regex_match match_from one_match
one_digit_matches c d v hc hd =
    rw (hc, hd)
      (ap (λ t. value_part (b'=' ∷ to_string v) (t ∷ []))
          (consumed-append (d ∷ []) (b'=' ∷ to_string v))
        ∙ value_part-to_string v ((d ∷ []) ∷ []))

two_digits_match :
    (c d e v : ℕ)
    → is_r c ≡ true
    → is_digit d ≡ true
    → is_digit e ≡ true
    → regex_match (c ∷ d ∷ e ∷ b'=' ∷ to_string v) init_regex
      ≡ some ((d ∷ e ∷ []) ∷ to_string v ∷ [])
unfolding regex_match match_from one_match
two_digits_match c d e v hc hd he =
    rw (hc, hd, he)
      (or_else-some _ _ _ (
        ap (λ t. value_part (b'=' ∷ to_string v) (t ∷ []))
          (consumed-append (d ∷ e ∷ []) (b'=' ∷ to_string v))
        ∙ value_part-to_string v ((d ∷ e ∷ []) ∷ [])))

to_string-one : (i : ℕ) → i < 10 → to_string i ≡ (b'0' + i) ∷ []
unfolding to_string
to_string-one i h = digits-small i i h

to_string-two : (i : ℕ) → 10 ≤ i → i < 100 → to_string i ≡ (b'0' + i / 10) ∷ (b'0' + i % 10) ∷ []
unfolding to_string
to_string-two zero h k = absurd (omega arith)
to_string-two (suc i) h k =
    rw (digits-large (suc i) (suc i) h, digits-small i (suc i / 10) (omega arith)) refl

-- The number is printed with one digit or two.
register_matches :
    (c i v : ℕ)
    → is_r c ≡ true
    → i < 100
    → regex_match (c ∷ to_string i ++ b'=' ∷ to_string v) init_regex
      ≡ some (to_string i ∷ to_string v ∷ [])
register_matches c i v hc h = elim (dec_lt i 10) [
  | yes small ↦ rw (to_string-one i small) (one_digit_matches c (b'0' + i) v hc (ground arith))
  | no large ↦
      rw (to_string-two i (omega arith) h)
        (two_digits_match c (b'0' + i / 10) (b'0' + i % 10) v hc (ground arith) (ground arith))
]

-- For a register number below 100 and a 64-bit value, the initialiser with the letter r or R, the
-- number, an equals sign and the value in decimal is read as that number and value.
pub register_init-to_string :
    (c i v : ℕ)
    → is_r c ≡ true
    → i < 100
    → v < 2 ^ 64
    → register_init (c ∷ to_string i ++ b'=' ∷ to_string v) ≡ ok (record { number = i; value = v })
unfolding register_init
register_init-to_string c i v hc h hv =
    rw (register_matches c i v hc h, stoul-to_string i (omega arith), stoull_any-to_string v hv)
      (ground arith)

-- A test file's property for a register.
abbrev pub print_register : RegisterInit → Text × Text
print_register r = (b'R' ∷ to_string r.number, to_string r.value)

abbrev pub print_registers : List RegisterInit → List (Text × Text)
print_registers [] = []
print_registers (r ∷ rs) = print_register r ∷ print_registers rs

abbrev pub AreRegisters : List RegisterInit → Type 0
AreRegisters [] = Unit
AreRegisters (r ∷ rs) = (r.number < 2 ^ 8) × (r.value < 2 ^ 64) × AreRegisters rs

registers_of-print :
    (rs : List RegisterInit) → AreRegisters rs → registers_of (print_registers rs) ≡ ok rs
unfolding registers_of register_number
registers_of-print [] h = refl
registers_of-print (r ∷ rs) h =
    rw
      (
        stoi-to_string r.number (omega (arith, h.0)),
        stoull_any-to_string r.value (h.1),
        registers_of-print rs (h.2),
      )
      (ground (arith, h.0))

-- For registers with 8-bit numbers and 64-bit values, if a section's properties are R with the
-- number in decimal and the value in decimal, the registers read from the section are those
-- registers, in order.
pub get_registers-print_registers :
    (section : Text) (t : TestFile) (rs : List RegisterInit)
    → AreRegisters rs
    → get_properties section t.config ≡ print_registers rs
    → get_registers section t ≡ ok rs
unfolding get_registers
get_registers-print_registers section t rs h e = rw e (registers_of-print rs h)

upper_case_kept : (rs : List RegisterInit) → check_names (print_registers rs) ≡ ok tt
unfolding regex_match match_from one_match
upper_case_kept [] = refl
upper_case_kept (r ∷ rs) = upper_case_kept rs

lower_case_matches :
    (i : ℕ) → i < 100 → regex_match (b'r' ∷ to_string i) regname_regex ≡ some (to_string i ∷ [])
unfolding regex_match match_from one_match
lower_case_matches i h = elim (dec_lt i 10) [
  | yes small ↦ rw (to_string-one i small) (ground arith)
  | no large ↦ rw (to_string-two i (omega arith) h) (ground arith)
]

-- If a section is there and its properties are one register below 100 with the letter r or R
-- followed by registers with R, all numbers in decimal, validating the section throws if the letter
-- is the lower-case one, and passes otherwise.
pub validate_section-letter :
    (name : Text) (t : TestFile) (c i : ℕ) (value : Text) (rs : List RegisterInit)
    → is_r c ≡ true
    → i < 100
    → has_section name t.config ≡ true
    → get_properties name t.config ≡ (c ∷ to_string i, value) ∷ print_registers rs
    → validate_section name t
      ≡ (if c == b'r' then throw (invalid_register_name (c ∷ to_string i)) else ok tt)
unfolding validate_section regex_match match_from one_match
validate_section-letter name t c i value rs hc hi h e =
    rw (h, e)
      (elim (==_cases c b'r') [
        | inl small ↦ rw (small, lower_case_matches i hi) refl
        | inr other ↦ rw other (upper_case_kept rs)
      ])
