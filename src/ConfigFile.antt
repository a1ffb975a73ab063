-- ===== src/ConfigFile.antt =====
-- src/config-file.h and src/config-file.cc: the parser of configuration files. A file is its bytes,
-- or nothing if it cannot be opened. `std::map` is a list in the order of its keys. Warnings go to
-- `std::cerr`; the model keeps their line numbers.
mod Tests
pub mod Lines
pub mod Loaded
pub mod Properties
pub mod RoundTrip
use ca.Base.{
  ℕ, ◌+◌, Bool, true, false, not, ◌&&◌, ◌||◌, List, [], ◌∷◌, ◌++◌, Option, none, some, Result, ok,
  throw, bind, runtime_error, duplicate_section, duplicate_property, ◌==◌, if◌then◌else◌,
}
use ca.Base.Text.{Text, codes, text_eq, text_lt, is_letter, is_digit, is_space}
use ca.Base.Regex.{Regex, one, many, sequence, group, regex_match}

abbrev pub global_section_name : Text
global_section_name = codes "__GLOBAL"

-- A section's name and a key.
abbrev pub PropertyName : Type 0
PropertyName = Text × Text

pub record ConfigFile : Type 0 where
  pub properties : List (PropertyName × Text)
  pub sections : List Text

abbrev pub clear : ConfigFile
clear = record { properties = []; sections = [] }

abbrev pub contains_text : List Text → Text → Bool
contains_text [] t = false
contains_text (s ∷ ss) t = text_eq s t || contains_text ss t

unfoldable pub has_section : Text → ConfigFile → Bool
has_section name c = contains_text c.sections name

abbrev pub is_property : Text → Text → PropertyName → Bool
is_property section key name = text_eq name.0 section && text_eq name.1 key

abbrev pub any_property : List (PropertyName × Text) → Text → Text → Bool
any_property [] section key = false
any_property (p ∷ ps) section key = is_property section key p.0 || any_property ps section key

unfoldable pub has_property : Text → Text → ConfigFile → Bool
has_property section key c = any_property c.properties section key

abbrev pub properties_of : List (PropertyName × Text) → Text → List (Text × Text)
properties_of [] section = []
properties_of (p ∷ ps) section =
    let rest = properties_of ps section in
    if text_eq (p.0.0) section then (p.0.1, p.1) ∷ rest else rest

unfoldable pub get_properties : Text → ConfigFile → List (Text × Text)
get_properties section c = properties_of c.properties section

unfoldable pub add_section : Text → ConfigFile → ConfigFile
add_section name c = record c { sections = c.sections ++ name ∷ [] }

-- The order of pairs of strings.
abbrev pub name_lt : PropertyName → PropertyName → Bool
name_lt a b = text_lt (a.0) (b.0) || (not (text_lt (b.0) (a.0)) && text_lt (a.1) (b.1))

-- A key that is there keeps its value.
abbrev pub emplace : PropertyName → Text → List (PropertyName × Text) → List (PropertyName × Text)
emplace name value [] = (name, value) ∷ []
emplace name value (p ∷ ps) =
    let rest = emplace name value ps in
    if name_lt name (p.0)
    then (name, value) ∷ p ∷ ps
    else if name_lt (p.0) name
    then p ∷ rest
    else p ∷ ps

unfoldable pub add_property : PropertyName → Text → ConfigFile → ConfigFile
add_property name value c = record c { properties = emplace name value c.properties }

abbrev pub is_alphanumeric : ℕ → Bool
is_alphanumeric c = is_letter c || is_digit c

abbrev pub is_not_space : ℕ → Bool
is_not_space c = not (is_space c)

abbrev one_or_more : (ℕ → Bool) → Regex
one_or_more c = sequence (one c) (many c)

-- \[([a-zA-Z0-9]+)\]\s*
abbrev pub section_regex : Regex
section_regex = sequence (one (λ c. c == b'[')) (
    sequence (group (one_or_more is_alphanumeric))
      (sequence (one (λ c. c == b']')) (many is_space)))

-- ([a-zA-Z]\S*)\s*=\s*(\S+)
abbrev pub key_value_regex : Regex
key_value_regex = sequence (group (sequence (one is_letter) (many is_not_space))) (
    sequence (many is_space) (
      sequence (one (λ c. c == b'='))
        (sequence (many is_space) (group (one_or_more is_not_space)))))

-- ^\s*$
abbrev pub empty_line_regex : Regex
empty_line_regex = many is_space

-- What the three patterns make of a line.
pub data Line : Type 0 where
  section_header : Text → Line
  key_value : Text → Text → Line
  empty_line : Line
  other : Line

abbrev section_line : Option (List Text) → Option Line
section_line (some (name ∷ [])) = some (section_header name)
section_line _ = none

abbrev key_value_line : Option (List Text) → Option Line
key_value_line (some (key ∷ value ∷ [])) = some (key_value key value)
key_value_line _ = none

abbrev empty_or_other : Option (List Text) → Line
empty_or_other (some _) = empty_line
empty_or_other none = other

abbrev first_of : Option Line → Line → Line
first_of (some l) rest = l
first_of none rest = rest

unfoldable pub classify : Text → Line
classify line = first_of (section_line (regex_match line section_regex)) (
    first_of (key_value_line (regex_match line key_value_regex))
      (empty_or_other (regex_match line empty_line_regex)))

-- `std::remove` of the two newline characters.
abbrev pub without_newlines : Text → Text
without_newlines [] = []
without_newlines (c ∷ line) =
    let rest = without_newlines line in if c == b'\n' || c == b'\r' then rest else c ∷ rest

-- The variables of the loop.
pub record Loading : Type 0 where
  pub config : ConfigFile
  pub current_section : Text
  pub line_number : ℕ
  pub warnings : List ℕ

-- The cases of the loop's body, for the number of the line.
unfoldable pub load_line : ℕ → Line → Loading → Result Loading
load_line n (section_header name) l =
    if has_section name l.config
    then throw (duplicate_section n name)
    else ok (record l { current_section = name; config = add_section name l.config })
load_line n (key_value key value) l =
    if has_property l.current_section key l.config
    then throw (duplicate_property n key)
    else ok (record l { config = add_property (l.current_section, key) value l.config })
load_line n empty_line l = ok l
load_line n other l = ok (record l { warnings = l.warnings ++ n ∷ [] })

unfoldable pub load_lines : List Text → Loading → Result Loading
load_lines [] l = ok l
load_lines (line ∷ rest) l =
    let n = l.line_number + 1 in
    bind (load_line n (classify (without_newlines line)) (record l { line_number = n }))
      (load_lines rest)

-- `std::getline`: a line ends at a newline or, unless it is empty, at the end of the file.
abbrev pub first_line : Text → List Text → List Text
first_line s [] = s ∷ []
first_line s (t ∷ ts) = (s ++ t) ∷ ts

abbrev pub get_lines : Text → List Text
get_lines [] = []
get_lines (c ∷ s) =
    let rest = get_lines s in if c == b'\n' then [] ∷ rest else first_line (c ∷ []) rest

abbrev pub start_loading : Loading
start_loading = record {
  config = add_section global_section_name clear;
  current_section = global_section_name;
  line_number = 0;
  warnings = [];
}

unfoldable pub load : Option Text → Result Loading
load none = throw (runtime_error "cannot open file")
load (some file) = load_lines (get_lines file) start_loading
