-- ===== src/ConfigFile/Tests.antt =====
-- Loading a small file.
use ca.Base.{
  ◌≡◌, refl, ok, false, List, [], ◌∷◌, some, throw, duplicate_property, duplicate_section,
}
use ca.Base.Text.{Text, codes}
use ca.Base.Regex.{regex_match, match_from, many_match, one_match}
use ca.ConfigFile.{
  ConfigFile, Line, section_header, key_value, empty_line, load, load_lines, load_line, classify,
  has_section, has_property, add_property, add_section, get_properties, start_loading,
}
use ca.ConfigFile.Loaded.{IsLoaded, GivesOrThrows, load-IsLoaded}
use ca.ConfigFile.Properties.{find_key, get_properties-add_property}
use ca.ConfigFile.RoundTrip.{print, load_entries, load-print}

abbrev demo : Text
demo = codes "# demo\n[pre]\nR2=4\r\nR10 = 0x1f\n\n[post]\nR1=58"

abbrev demo_config : ConfigFile
demo_config = record {
  properties =
      ((codes "post", codes "R1"), codes "58")
      ∷ ((codes "pre", codes "R10"), codes "0x1f")
      ∷ ((codes "pre", codes "R2"), codes "4")
      ∷ [];
  sections = codes "__GLOBAL" ∷ codes "pre" ∷ codes "post" ∷ [];
}

demo_loads :
    load (some demo)
    ≡ ok (record {
      config = demo_config;
      current_section = codes "post";
      line_number = 7;
      warnings = 1 ∷ [];
    })
unfolding load load_lines load_line classify has_section has_property add_property add_section
    regex_match match_from many_match one_match
demo_loads = refl

-- The key takes all up to the last equals sign.
duplicate_key :
    load (some (codes "[a]\nb=c=d\nb=c = 3")) ≡ throw (duplicate_property 3 (codes "b=c"))
unfolding load load_lines load_line classify has_section has_property add_property add_section
    regex_match match_from many_match one_match
duplicate_key = refl

duplicate_header : load (some (codes "[a]\n[a] ")) ≡ throw (duplicate_section 2 (codes "a"))
unfolding load load_lines load_line classify has_section has_property add_property add_section
    regex_match match_from many_match one_match
duplicate_header = refl

load-IsLoaded_example : GivesOrThrows IsLoaded (load (some demo))
load-IsLoaded_example = load-IsLoaded (some demo)

abbrev demo_lines : List Line
demo_lines = section_header (codes "pre") ∷ key_value (codes "R2") (codes "4") ∷ empty_line ∷ []

load-print_example : load (some (print demo_lines)) ≡ load_entries demo_lines start_loading
load-print_example =
    load-print demo_lines ((refl, (refl, (refl, tt))), ((refl, (refl, tt), (refl, tt)), (tt, tt)))

no_key : has_property (codes "pre") (codes "R3") demo_config ≡ false
unfolding has_property
no_key = refl

get_properties-add_property_example :
    find_key
      (get_properties
        (codes "pre")
        (add_property (codes "pre", codes "R3") (codes "7") demo_config))
      (codes "R3")
    ≡ some (codes "7")
get_properties-add_property_example =
    get_properties-add_property (codes "pre", codes "R3") (codes "7") (codes "pre") (codes "R3")
      demo_config no_key
