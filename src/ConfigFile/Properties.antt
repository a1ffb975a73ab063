-- ===== src/ConfigFile/Properties.antt =====
-- The map of properties of src/config-file.cc: adding a property and looking it up.
use ca.Base.{◌≡◌, refl, arith, true, false, ◌||◌, Option, none, some, List, [], ◌∷◌, if◌then◌else◌}
use ca.Base.Text.{Text, text_eq, text_lt, text_eq_iff}
use ca.ConfigFile.{
  ConfigFile, PropertyName, has_property, get_properties, add_property, is_property, any_property,
  properties_of, name_lt, emplace,
}

text_lt-antisym : (s t : Text) → text_lt s t ≡ false → text_lt t s ≡ false → s ≡ t
text_lt-antisym [] [] h k = refl
text_lt-antisym [] (y ∷ t) h k = ground arith
text_lt-antisym (x ∷ s) [] h k = ground arith
text_lt-antisym (x ∷ s) (y ∷ t) h k = ground (arith, text_lt-antisym s t)

-- Names that neither precede each other are the same.
name_lt-antisym :
    (a b : PropertyName)
    → name_lt a b ≡ false
    → name_lt b a ≡ false
    → is_property (a.0) (a.1) b ≡ true
name_lt-antisym a b h k = ground (
  arith,
  text_lt-antisym (a.0) (b.0),
  text_lt-antisym (a.1) (b.1),
  text_eq_iff (b.0) (a.0),
  text_eq_iff (b.1) (a.1),
)

-- A name that matches `(s, k)` is matched wherever `(s, k)` is.
is_property-same :
    (s k : Text) (a b : PropertyName)
    → is_property s k a ≡ true
    → is_property s k b ≡ true
    → is_property (a.0) (a.1) b ≡ true
is_property-same s k a b h j = ground (
  arith,
  text_eq_iff (a.0) s,
  text_eq_iff (a.1) k,
  text_eq_iff (b.0) s,
  text_eq_iff (b.1) k,
  text_eq_iff (b.0) (a.0),
  text_eq_iff (b.1) (a.1),
)

pub any_property-emplace :
    (n : PropertyName) (v : Text) (ps : List (PropertyName × Text)) (s k : Text)
    → any_property ps (n.0) (n.1) ≡ false
    → any_property (emplace n v ps) s k ≡ (is_property s k n || any_property ps s k)
any_property-emplace n v [] s k h = refl
any_property-emplace n v (p ∷ ps) s k h =
    ground (arith, name_lt-antisym n (p.0), any_property-emplace n v ps s k)

-- The value of a key in the list that a section's properties are handed out as.
abbrev pub find_key : List (Text × Text) → Text → Option Text
find_key [] key = none
find_key (p ∷ ps) key = let rest = find_key ps key in if text_eq (p.0) key then some (p.1) else rest

find_key-emplace :
    (n : PropertyName) (v : Text) (ps : List (PropertyName × Text)) (s k : Text)
    → any_property ps (n.0) (n.1) ≡ false
    → find_key (properties_of (emplace n v ps) s) k
      ≡ (if is_property s k n then some v else find_key (properties_of ps s) k)
find_key-emplace n v [] s k h = ground arith
find_key-emplace n v (p ∷ ps) s k h =
    ground
      (arith, name_lt-antisym n (p.0), is_property-same s k n (p.0), find_key-emplace n v ps s k)

-- After a property is added whose section and key are not there yet, the properties handed out for
-- any section give its value for its own key, and for any other key what they gave before.
pub get_properties-add_property :
    (name : PropertyName) (value section key : Text) (c : ConfigFile)
    → has_property (name.0) (name.1) c ≡ false
    → find_key (get_properties section (add_property name value c)) key ≡ (
        if is_property section key name
        then some value
        else find_key (get_properties section c) key)
unfolding has_property get_properties add_property
get_properties-add_property name value section key c h =
    find_key-emplace name value c.properties section key h
