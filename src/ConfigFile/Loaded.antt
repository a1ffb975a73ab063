-- ===== src/ConfigFile/Loaded.antt =====
-- What holds of the loop's variables in src/config-file.cc, after any lines.
use ca.Base.{
  ℕ, ◌+◌, ◌≡◌, refl, arith, true, false, ◌||◌, Option, none, some, List, [], ◌∷◌, ◌++◌, Result, ok,
  throw, bind,
}
use ca.Base.Text.{Text, text_eq, text_eq_iff, text_eq_self}
use ca.ConfigFile.{
  PropertyName, Line, section_header, key_value, empty_line, other, Loading, load_line, load_lines,
  load, start_loading, contains_text, has_section, has_property, add_section, add_property,
  is_property, any_property, emplace, classify, without_newlines, get_lines,
}
use ca.ConfigFile.Properties.{any_property-emplace}

-- No section twice, no key twice in a section, and every property in a section that is there.
abbrev pub DistinctSections : List Text → Type 0
DistinctSections [] = Unit
DistinctSections (s ∷ ss) = (contains_text ss s ≡ false) × DistinctSections ss

abbrev pub DistinctNames : List (PropertyName × Text) → Type 0
DistinctNames [] = Unit
DistinctNames (p ∷ ps) = (any_property ps (p.0.0) (p.0.1) ≡ false) × DistinctNames ps

abbrev pub InSections : List Text → List (PropertyName × Text) → Type 0
InSections ss [] = Unit
InSections ss (p ∷ ps) = (contains_text ss (p.0.0) ≡ true) × InSections ss ps

pub record IsLoaded (l : Loading) : Type 0 where
  pub distinct_sections : DistinctSections l.config.sections
  pub distinct_names : DistinctNames l.config.properties
  pub in_sections : InSections l.config.sections l.config.properties
  pub current : contains_text l.config.sections l.current_section ≡ true

contains_text-append :
    (ss : List Text) (name t : Text)
    → contains_text (ss ++ name ∷ []) t ≡ (contains_text ss t || text_eq name t)
contains_text-append [] name t = ground arith
contains_text-append (s ∷ ss) name t = ground (arith, contains_text-append ss name t)

DistinctSections-append :
    (ss : List Text) (name : Text)
    → contains_text ss name ≡ false
    → DistinctSections ss
    → DistinctSections (ss ++ name ∷ [])
DistinctSections-append [] name h d = (refl, tt)
DistinctSections-append (s ∷ ss) name h d = (
  ground (arith, h, d.0, contains_text-append ss name s, text_eq_iff name s, text_eq_self s),
  DistinctSections-append ss name (ground (arith, h)) (d.1),
)

InSections-append :
    (ss : List Text) (name : Text) (ps : List (PropertyName × Text))
    → InSections ss ps
    → InSections (ss ++ name ∷ []) ps
InSections-append ss name [] h = tt
InSections-append ss name (p ∷ ps) h =
    (ground (arith, h.0, contains_text-append ss name (p.0.0)), InSections-append ss name ps (h.1))

InSections-emplace :
    (ss : List Text) (n : PropertyName) (v : Text) (ps : List (PropertyName × Text))
    → contains_text ss (n.0) ≡ true
    → InSections ss ps
    → InSections ss (emplace n v ps)
InSections-emplace ss n v [] h i = (h, tt)
InSections-emplace ss n v (p ∷ ps) h i = ground (arith, InSections-emplace ss n v ps h (i.1))

is_property_sym : (a b : PropertyName) → is_property (a.0) (a.1) b ≡ is_property (b.0) (b.1) a
is_property_sym a b = ground (
  arith,
  text_eq_iff (a.0) (b.0),
  text_eq_iff (b.0) (a.0),
  text_eq_iff (a.1) (b.1),
  text_eq_iff (b.1) (a.1),
)

DistinctNames-emplace :
    (n : PropertyName) (v : Text) (ps : List (PropertyName × Text))
    → any_property ps (n.0) (n.1) ≡ false
    → DistinctNames ps
    → DistinctNames (emplace n v ps)
DistinctNames-emplace n v [] h d = (refl, tt)
DistinctNames-emplace n v (p ∷ ps) h d = ground (
  arith,
  is_property_sym n (p.0),
  DistinctNames-emplace n v ps,
  any_property-emplace n v ps (p.0.0) (p.0.1),
)

section_header-IsLoaded :
    (name : Text) (l : Loading)
    → has_section name l.config ≡ false
    → IsLoaded l
    → IsLoaded (record l { current_section = name; config = add_section name l.config })
unfolding has_section add_section
section_header-IsLoaded name l h i = record {
  distinct_sections = DistinctSections-append l.config.sections name h i.distinct_sections;
  distinct_names = i.distinct_names;
  in_sections = InSections-append l.config.sections name l.config.properties i.in_sections;
  current = ground (arith, contains_text-append l.config.sections name name, text_eq_self name);
}

key_value-IsLoaded :
    (key value : Text) (l : Loading)
    → has_property l.current_section key l.config ≡ false
    → IsLoaded l
    → IsLoaded (record l { config = add_property (l.current_section, key) value l.config })
unfolding has_property add_property
key_value-IsLoaded key value l h i = record {
  distinct_sections = i.distinct_sections;
  distinct_names =
      DistinctNames-emplace (l.current_section, key) value l.config.properties h i.distinct_names;
  in_sections =
      InSections-emplace l.config.sections (l.current_section, key) value l.config.properties
        i.current i.in_sections;
  current = i.current;
}

-- The call throws, or gives a value of which `P` holds.
abbrev pub GivesOrThrows : {A : Type 0} → (A → Type 0) → Result A → Type 0
GivesOrThrows P (ok a) = P a
GivesOrThrows P (throw e) = Unit
GivesOrThrows P Result.undefined = ⊥

GivesOrThrows-bind :
    {A B : Type 0} (P : A → Type 0) (Q : B → Type 0) (r : Result A) (f : A → Result B)
    → GivesOrThrows P r
    → ((a : A) → P a → GivesOrThrows Q (f a))
    → GivesOrThrows Q (bind r f)
GivesOrThrows-bind P Q (ok a) f h next = next a h
GivesOrThrows-bind P Q (throw e) f h next = tt
GivesOrThrows-bind P Q Result.undefined f h next = h

load_line-IsLoaded :
    (n : ℕ) (line : Line) (l : Loading) → IsLoaded l → GivesOrThrows IsLoaded (load_line n line l)
unfolding load_line
load_line-IsLoaded n (section_header name) l i = ground (arith, section_header-IsLoaded name l)
load_line-IsLoaded n (key_value key value) l i = ground (arith, key_value-IsLoaded key value l)
load_line-IsLoaded n empty_line l i = i
load_line-IsLoaded n other l i = record {
  distinct_sections = i.distinct_sections;
  distinct_names = i.distinct_names;
  in_sections = i.in_sections;
  current = i.current;
}

load_lines-IsLoaded :
    (lines : List Text) (l : Loading) → IsLoaded l → GivesOrThrows IsLoaded (load_lines lines l)
unfolding load_lines
load_lines-IsLoaded [] l i = i
load_lines-IsLoaded (line ∷ rest) l i =
    GivesOrThrows-bind IsLoaded IsLoaded
      (load_line (l.line_number + 1) (classify (without_newlines line))
        (record l { line_number = l.line_number + 1 }))
      (load_lines rest)
      (load_line-IsLoaded (l.line_number + 1) (classify (without_newlines line))
        (record l { line_number = l.line_number + 1 })
        (record {
          distinct_sections = i.distinct_sections;
          distinct_names = i.distinct_names;
          in_sections = i.in_sections;
          current = i.current;
        }))
      λ l' i'. load_lines-IsLoaded rest l' i'

start_loading-IsLoaded : IsLoaded start_loading
unfolding add_section
start_loading-IsLoaded = record {
  distinct_sections = (refl, tt);
  distinct_names = tt;
  in_sections = tt;
  current = refl;
}

-- Whatever the file, loading it throws, or gives a configuration in which no section and no key
-- within a section stands twice and every property's section is among the sections, as is the
-- current one.
pub load-IsLoaded : (file : Option Text) → GivesOrThrows IsLoaded (load file)
unfolding load
load-IsLoaded none = tt
load-IsLoaded (some file) =
    load_lines-IsLoaded (get_lines file) start_loading start_loading-IsLoaded
