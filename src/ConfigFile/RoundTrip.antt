-- ===== src/ConfigFile/RoundTrip.antt =====
-- Loading a printed configuration: the lines that the parser of src/config-file.cc is meant for,
-- and their text.
use ca.Base.{
  ℕ, ◌+◌, ◌≡◌, refl, arith, Bool, true, not, ◌||◌, none, some, List, [], ◌∷◌, ◌++◌, ◌==◌, ok,
  Result, bind, bind_cong,
}
use ca.Base.Text.{Text, codes, is_letter}
use ca.Base.Regex.{regex_match, match_from, one_match, many_match}
use ca.Base.Regex.Laws.{AllIn, AllIn-append}
use ca.ConfigFile.{
  Line, section_header, key_value, empty_line, other, classify, is_alphanumeric, is_not_space,
  get_lines, without_newlines, Loading, load_line, load_lines, load, start_loading, section_regex,
}
use ca.ConfigFile.Lines.{section_matches, key_value_matches, is_value_byte}

abbrev pub print_line : Line → Text
print_line (section_header name) = b'[' ∷ name ++ b']' ∷ []
print_line (key_value key value) = key ++ b'=' ∷ value
print_line empty_line = []
print_line other = codes "#"

abbrev pub print : List Line → Text
print [] = []
print (l ∷ ls) = print_line l ++ b'\n' ∷ print ls

-- The lines whose text the patterns read back.
abbrev pub IsPrintable : Line → Type 0
IsPrintable (section_header []) = ⊥
IsPrintable (section_header (x ∷ name)) = AllIn is_alphanumeric (x ∷ name)
IsPrintable (key_value [] value) = ⊥
IsPrintable (key_value (x ∷ key) []) = ⊥
IsPrintable (key_value (x ∷ key) (y ∷ value)) =
    (is_letter x ≡ true) × AllIn is_not_space key × AllIn is_value_byte (y ∷ value)
IsPrintable empty_line = Unit
IsPrintable other = Unit

abbrev pub ArePrintable : List Line → Type 0
ArePrintable [] = Unit
ArePrintable (l ∷ ls) = IsPrintable l × ArePrintable ls

-- The loop on lines that are known.
unfoldable pub load_entries : List Line → Loading → Result Loading
load_entries [] l = ok l
load_entries (e ∷ es) l =
    let n = l.line_number + 1 in
    bind (load_line n e (record l { line_number = n })) (load_entries es)

not_section : (x : ℕ) (s : Text) → is_letter x ≡ true → regex_match (x ∷ s) section_regex ≡ none
unfolding regex_match match_from one_match
not_section x s h = ground arith

classify-print_line : (l : Line) → IsPrintable l → classify (print_line l) ≡ l
unfolding classify regex_match match_from one_match many_match
classify-print_line (section_header []) h = elim h [ ]
classify-print_line (section_header (x ∷ name)) h =
    rw (section_matches x name [] (h.0) (h.1) tt) refl
classify-print_line (key_value [] value) h = elim h [ ]
classify-print_line (key_value (x ∷ key) []) h = elim h [ ]
classify-print_line (key_value (x ∷ key) (y ∷ value)) h =
    rw
      (
        not_section x (key ++ b'=' ∷ y ∷ value) (h.0),
        key_value_matches x key [] [] y value (h.0) (h.1) tt tt (h.2),
      )
      refl
classify-print_line empty_line h = refl
classify-print_line other h = refl

abbrev is_kept : ℕ → Bool
is_kept c = not (c == b'\n' || c == b'\r')

module _ {c d : ℕ → Bool} (weaker : (x : ℕ) → c x ≡ true → d x ≡ true) where
  AllIn-mono : (s : Text) → AllIn c s → AllIn d s
  AllIn-mono [] h = tt
  AllIn-mono (x ∷ s) h = (weaker x (h.0), AllIn-mono s (h.1))

alphanumeric-kept : (s : Text) → AllIn is_alphanumeric s → AllIn is_kept s
alphanumeric-kept = AllIn-mono λ x h. ground arith

not_space-kept : (s : Text) → AllIn is_not_space s → AllIn is_kept s
not_space-kept = AllIn-mono λ x h. ground arith

value-kept : (s : Text) → AllIn is_value_byte s → AllIn is_kept s
value-kept = AllIn-mono λ x h. ground arith

-- No printed line has a newline character.
print_line-kept : (l : Line) → IsPrintable l → AllIn is_kept (print_line l)
print_line-kept (section_header []) h = elim h [ ]
print_line-kept (section_header (x ∷ name)) h =
    (refl, AllIn-append is_kept (x ∷ name) (b']' ∷ []) (alphanumeric-kept (x ∷ name) h) (refl, tt))
print_line-kept (key_value [] value) h = elim h [ ]
print_line-kept (key_value (x ∷ key) []) h = elim h [ ]
print_line-kept (key_value (x ∷ key) (y ∷ value)) h = (
  ground (arith, h.0),
  AllIn-append is_kept key (b'=' ∷ y ∷ value) (not_space-kept key (h.1))
      (refl, value-kept (y ∷ value) (h.2)),
)
print_line-kept empty_line h = tt
print_line-kept other h = (refl, tt)

without_newlines-kept : (s : Text) → AllIn is_kept s → without_newlines s ≡ s
without_newlines-kept [] h = refl
without_newlines-kept (x ∷ s) h = ground (arith, h.0, without_newlines-kept s (h.1))

get_lines-line :
    (s rest : Text) → AllIn is_kept s → get_lines (s ++ b'\n' ∷ rest) ≡ s ∷ get_lines rest
get_lines-line [] rest h = refl
get_lines-line (x ∷ s) rest h = ground (arith, h.0, get_lines-line s rest (h.1))

load_lines-print :
    (ls : List Line) (l : Loading)
    → ArePrintable ls
    → load_lines (get_lines (print ls)) l ≡ load_entries ls l
unfolding load_lines load_entries
load_lines-print [] l h = refl
load_lines-print (e ∷ es) l h =
    rw
      (
        get_lines-line (print_line e) (print es) (print_line-kept e (h.0)),
        without_newlines-kept (print_line e) (print_line-kept e (h.0)),
        classify-print_line e (h.0),
      )
      (bind_cong (load_line (l.line_number + 1) e (record l { line_number = l.line_number + 1 })) _
        _ λ l'. load_lines-print es l' (h.1))

-- For lines of which each is a section header with a name of letters and digits, a key and a value,
-- empty or a comment, the key being a letter followed by no spaces and the value having neither
-- spaces nor an equals sign, loading the printed file does what the parser's cases do on the lines
-- themselves, one after the other.
pub load-print :
    (ls : List Line) → ArePrintable ls → load (some (print ls)) ≡ load_entries ls start_loading
unfolding load
load-print ls h = load_lines-print ls start_loading h
