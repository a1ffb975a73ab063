-- ===== src/Testing.antt =====
-- src/testing.h and src/testing.cc: initial values of registers, and test files. The class TestFile
-- is a configuration that was loaded, with the name of its file.
pub mod RoundTrip
mod Tests
use ca.Base
use ca.Base.{
  ℕ, ◌-◌, ◌^◌, ◌%◌, Bool, true, false, ◌&&◌, ◌||◌, List, [], ◌∷◌, ◌++◌, Option, none, some, Result,
  ok, throw, bind, section_missing, invalid_register_name, ◌==◌, ltb, leb, length, if◌then◌else◌,
  out_of_range, out_of_range_error, take,
}
use ca.Base.Int.{ℤ, unsigned}
use ca.Base.Text.{Text, codes, is_digit}
use ca.Base.Regex.{Regex, one, many, sequence, either, group, regex_match}
use ca.Base.Decimal.{stoul, stoull_any, stoi}
use ca.ConfigFile.{ConfigFile, Loading, has_section, get_properties, load}

pub record RegisterInit : Type 0 where
  pub number : ℕ
  pub value : ℕ

abbrev pub max_regs : ℕ
max_regs = 256

abbrev pub one_or_two : (ℕ → Bool) → Regex
one_or_two c = either (sequence (one c) (one c)) (one c)

abbrev pub byte : ℕ → Regex
byte b = one (λ c. c == b)

abbrev pub hexadecimal : Regex
hexadecimal = sequence (byte b'0') (sequence (byte b'x') (sequence (one is_digit) (many is_digit)))

-- [rR]([0-9]{1,2})=(0x[0-9]+|[0-9]+)
abbrev pub init_regex : Regex
init_regex = sequence (one (λ c. c == b'r' || c == b'R')) (
    sequence (group (one_or_two is_digit))
      (sequence (byte b'=') (group (either hexadecimal (sequence (one is_digit) (many is_digit))))))

abbrev register_of_groups : Option (List Text) → Result RegisterInit
register_of_groups (some (number ∷ value ∷ [])) = bind (stoul number) λ regnum.
    if leb max_regs regnum
    then throw (out_of_range regnum)
    else bind (stoull_any value) λ v. ok (record { number = regnum % 2 ^ 8; value = v })
register_of_groups _ = ok (record { number = 0; value = 0 })

-- The constructor from a text, which leaves the default values if the text has another form.
unfoldable pub register_init : Text → Result RegisterInit
register_init initstr = register_of_groups (regex_match initstr init_regex)

pub record TestFile : Type 0 where
  pub config : ConfigFile
  pub filename : Text

-- r([0-9]{1,2})
abbrev pub regname_regex : Regex
regname_regex = sequence (byte b'r') (group (one_or_two is_digit))

abbrev pub check_name : Text → Option (List Text) → Result (Unit {0}) → Result (Unit {0})
check_name prop (some groups) rest = throw (invalid_register_name prop)
check_name prop none rest = rest

abbrev pub check_names : List (Text × Text) → Result (Unit {0})
check_names [] = ok tt
check_names (p ∷ ps) = check_name (p.0) (regex_match (p.0) regname_regex) (check_names ps)

unfoldable pub validate_section : Text → TestFile → Result (Unit {0})
validate_section name t =
    if has_section name t.config
    then check_names (get_properties name t.config)
    else throw (section_missing name)

unfoldable pub validate : TestFile → Result (Unit {0})
validate t = bind (validate_section (codes "pre") t) λ _. validate_section (codes "post") t

-- The constructor, for the bytes of the file or nothing.
unfoldable pub test_file : Text → Option Text → Result TestFile
test_file filename file = bind (load file) λ l.
    let t : TestFile = record { config = l.config; filename = filename } in
    bind (validate t) λ _. ok t

-- `prop.c_str() + 1`, whose bytes cannot be read if `prop` is empty.
unfoldable pub register_number : Text → Result ℤ
register_number [] = Base.Result.undefined
register_number (c ∷ rest) = stoi rest

-- C++ leaves the order of the two conversions open; here the number comes first.
unfoldable pub registers_of : List (Text × Text) → Result (List RegisterInit)
registers_of [] = ok []
registers_of (p ∷ ps) = bind (register_number (p.0)) λ number. bind (stoull_any (p.1)) λ value.
    bind (registers_of ps) λ rest. ok (record { number = unsigned 8 number; value = value } ∷ rest)

unfoldable pub get_registers : Text → TestFile → Result (List RegisterInit)
get_registers section t = registers_of (get_properties section t.config)

unfoldable pub get_pre_registers : TestFile → Result (List RegisterInit)
get_pre_registers t = get_registers (codes "pre") t

unfoldable pub get_post_registers : TestFile → Result (List RegisterInit)
get_post_registers t = get_registers (codes "post") t

-- `length() - 5` wraps around, and `replace` throws.
unfoldable pub get_executable : TestFile → Result Text
get_executable t =
    let n = length t.filename in
    if ltb n 5
    then throw (out_of_range_error "basic_string::replace")
    else ok (take (n - 5) t.filename ++ codes ".bin")
