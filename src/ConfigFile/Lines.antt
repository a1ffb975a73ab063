-- ===== src/ConfigFile/Lines.antt =====
-- The three patterns of src/config-file.cc on the lines that they are meant for.
use ca.Base.{
  ℕ, ◌≡◌, refl, ap, ◌∙◌, arith, Bool, true, not, ◌&&◌, none, some, List, [], ◌∷◌, ◌++◌, ◌==◌,
}
use ca.Base.Text.{Text, is_letter, is_space}
use ca.Base.Regex.{
  one, many, sequence, regex_match, match_from, one_match, Next, group, at_end, many_match,
  consumed,
}
use ca.Base.Regex.Laws.{
  AllIn, FailsOn, consumed-append, many_match-none, many_match-some, many_match-stop,
  many_match-give_back, many_match-all, match_from-group, match_from-last_group,
}
use ca.ConfigFile.{section_regex, key_value_regex, is_alphanumeric, is_not_space}

pub section_matches :
    (x : ℕ) (name s : Text)
    → is_alphanumeric x ≡ true
    → AllIn is_alphanumeric name
    → AllIn is_space s
    → regex_match (b'[' ∷ x ∷ name ++ (b']' ∷ s)) section_regex ≡ some ((x ∷ name) ∷ [])
unfolding regex_match match_from one_match
section_matches x name s hx h hs =
    match_from-group is_alphanumeric x name b']' s [] ((x ∷ name) ∷ [])
      (λ rest groups.
        match_from (sequence (one (λ c. c == b']')) (many is_space)) rest groups at_end)
      hx h refl (many_match-all is_space s ((x ∷ name) ∷ []) ((x ∷ name) ∷ []) at_end hs refl)

-- No byte of a value is a space or the equals sign.
abbrev pub is_value_byte : ℕ → Bool
is_value_byte c = is_not_space c && not (c == b'=')

-- What follows the spaces after the equals sign, the spaces after the key, and the key.
abbrev value_part : Next
value_part rest groups =
    match_from (group (sequence (one is_not_space) (many is_not_space))) rest groups at_end

abbrev equals_part : Next
unfolding match_from
equals_part rest groups =
    one_match (λ c. c == b'=') rest groups
      λ rest' groups'. many_match is_space rest' groups' value_part

abbrev after_key : Next
after_key rest groups = many_match is_space rest groups equals_part

abbrev not_equals : ℕ → Bool
not_equals c = not (c == b'=')

equals_part-fails :
    (s : Text) (groups : List Text) → AllIn not_equals s → FailsOn equals_part s groups
unfolding equals_part one_match
equals_part-fails [] groups h = refl
equals_part-fails (x ∷ s) groups h = (ground (arith, h.0), equals_part-fails s groups (h.1))

after_key-none : (s : Text) (groups : List Text) → AllIn not_equals s → after_key s groups ≡ none
after_key-none s groups h =
    many_match-none is_space s groups equals_part (equals_part-fails s groups h)

-- The spaces after the equals sign and the value.
value_part-not_equals :
    (s value : Text) → AllIn is_space s → AllIn is_value_byte value → AllIn not_equals (s ++ value)
value_part-not_equals [] [] hs h = tt
value_part-not_equals [] (x ∷ value) hs h =
    (ground (arith, h.0), value_part-not_equals [] value hs (h.1))
value_part-not_equals (x ∷ s) value hs h =
    (ground (arith, hs.0), value_part-not_equals s value (hs.1) h)

all_not_space : (value : Text) → AllIn is_value_byte value → AllIn is_not_space value
all_not_space [] h = tt
all_not_space (x ∷ value) h = (ground (arith, h.0), all_not_space value (h.1))

after_key-some :
    (s s' : Text) (y : ℕ) (value : Text) (groups : List Text)
    → AllIn is_space s
    → AllIn is_space s'
    → AllIn is_value_byte (y ∷ value)
    → after_key (s ++ (b'=' ∷ (s' ++ (y ∷ value)))) groups ≡ some (groups ++ (y ∷ value) ∷ [])
unfolding match_from one_match
after_key-some s s' y value groups hs hs' h =
    many_match-some is_space s (b'=' ∷ (s' ++ (y ∷ value))) groups _ equals_part hs (
      many_match-stop is_space b'=' (s' ++ (y ∷ value)) groups equals_part refl
      ∙ many_match-some is_space s' (y ∷ value) groups _ value_part hs' (
          many_match-stop is_space y value groups value_part (ground (arith, h.0))
          ∙ match_from-last_group is_not_space y value groups _ at_end (ground (arith, h.0))
              (all_not_space value (h.1)) refl))

-- The key, captured as the start of `line`.
abbrev key_captured : Text → Next
key_captured line rest groups = after_key rest (groups ++ consumed line rest ∷ [])

key_captured-fails :
    (line s : Text) (groups : List Text) → AllIn not_equals s → FailsOn (key_captured line) s groups
key_captured-fails line [] groups h = after_key-none [] _ tt
key_captured-fails line (x ∷ s) groups h =
    (after_key-none (x ∷ s) _ h, key_captured-fails line s groups (h.1))

-- The key ends at the first space or, when it has taken all, gives the equals sign back.
key_ends :
    (line s s' : Text) (y : ℕ) (value : Text) (r : List Text)
    → AllIn is_space s
    → AllIn is_space s'
    → AllIn is_value_byte (y ∷ value)
    → key_captured line (s ++ (b'=' ∷ (s' ++ (y ∷ value)))) [] ≡ some r
    → many_match is_not_space (s ++ (b'=' ∷ (s' ++ (y ∷ value)))) [] (key_captured line) ≡ some r
key_ends line [] s' y value r hs hs' h e =
    many_match-give_back is_not_space b'=' (s' ++ (y ∷ value)) [] r (key_captured line)
      (key_captured-fails line (s' ++ (y ∷ value)) [] (value_part-not_equals s' (y ∷ value) hs' h))
      e
key_ends line (b ∷ s) s' y value r hs hs' h e =
    many_match-stop is_not_space b (s ++ (b'=' ∷ (s' ++ (y ∷ value)))) [] (key_captured line)
      (ground (arith, hs.0))
    ∙ e

pub key_value_matches :
    (x : ℕ) (key s s' : Text) (y : ℕ) (value : Text)
    → is_letter x ≡ true
    → AllIn is_not_space key
    → AllIn is_space s
    → AllIn is_space s'
    → AllIn is_value_byte (y ∷ value)
    → regex_match (x ∷ key ++ (s ++ (b'=' ∷ (s' ++ (y ∷ value))))) key_value_regex
      ≡ some ((x ∷ key) ∷ (y ∷ value) ∷ [])
unfolding regex_match match_from one_match equals_part
key_value_matches x key s s' y value hx hkey hs hs' h = rw hx (
    let rest : Text = s ++ (b'=' ∷ (s' ++ (y ∷ value))) in
    let line : Text = x ∷ key ++ rest in
    many_match-some is_not_space key rest [] _ (key_captured line) hkey (
      key_ends line s s' y value _ hs hs' h (
        ap (λ t. after_key rest (t ∷ [])) (consumed-append (x ∷ key) rest)
        ∙ after_key-some s s' y value ((x ∷ key) ∷ []) hs hs' h)))
