-- ===== src/Testing/Tests.antt =====
-- Registers and test files at concrete texts.
use ca.Base.{◌≡◌, refl, arith, ok, throw, true, some, List, [], ◌∷◌, invalid_register_name, ◌++◌}
use ca.Base.Text.{Text, codes}
use ca.Base.Decimal.{
  to_string, digits, stoul, stoull_any, stoi, to_unsigned, to_int, magnitude, magnitude_any,
  accumulate, split_sign,
}
use ca.Base.Regex.{regex_match, match_from, many_match, one_match}
use ca.ConfigFile.{
  ConfigFile, load, load_lines, load_line, classify, has_section, has_property, add_property,
  add_section, get_properties,
}
use ca.Testing.{
  RegisterInit, TestFile, register_init, validate_section, validate, test_file, register_number,
  registers_of, get_registers, get_pre_registers, get_executable,
}
use ca.Testing.RoundTrip.{
  register_init-to_string, get_registers-print_registers, validate_section-letter, print_registers,
}

decimal_register : register_init (codes "R10=58") ≡ ok (record { number = 10; value = 58 })
unfolding register_init regex_match match_from many_match one_match stoul stoull_any to_unsigned
    magnitude magnitude_any accumulate split_sign
decimal_register = refl

-- A leading zero makes the value octal, and hexadecimal letters do not match.
octal_register : register_init (codes "r1=010") ≡ ok (record { number = 1; value = 8 })
unfolding register_init regex_match match_from many_match one_match stoul stoull_any to_unsigned
    magnitude magnitude_any accumulate split_sign
octal_register = refl

letters_ignored : register_init (codes "r1=0xff") ≡ ok (record { number = 0; value = 0 })
unfolding register_init regex_match match_from many_match one_match
letters_ignored = refl

abbrev demo : Text
demo = codes "[pre]\nR2=4\nR10=0x1f\n[post]\nR1=-1\n"

abbrev demo_config : ConfigFile
demo_config = record {
  properties =
      ((codes "post", codes "R1"), codes "-1")
      ∷ ((codes "pre", codes "R10"), codes "0x1f")
      ∷ ((codes "pre", codes "R2"), codes "4")
      ∷ [];
  sections = codes "__GLOBAL" ∷ codes "pre" ∷ codes "post" ∷ [];
}

abbrev demo_file : TestFile
demo_file = record { config = demo_config; filename = codes "a.conf" }

demo_is_read : test_file (codes "a.conf") (some demo) ≡ ok demo_file
unfolding test_file validate validate_section get_properties load load_lines load_line classify
    has_section has_property add_property add_section regex_match match_from many_match one_match
demo_is_read = refl

pre_registers :
    get_pre_registers demo_file
    ≡ ok (record { number = 10; value = 31 } ∷ record { number = 2; value = 4 } ∷ [])
unfolding get_pre_registers get_registers registers_of register_number get_properties stoi to_int
    stoull_any to_unsigned magnitude magnitude_any accumulate split_sign
pre_registers = refl

executable : get_executable demo_file ≡ ok (codes "a.bin")
unfolding get_executable
executable = refl

register_init-to_string_example :
    register_init (b'R' ∷ to_string 31 ++ b'=' ∷ to_string 4096)
    ≡ ok (record { number = 31; value = 4096 })
register_init-to_string_example =
    register_init-to_string b'R' 31 4096 refl (omega arith) (omega arith)

abbrev two_registers : List RegisterInit
two_registers = record { number = 10; value = 31 } ∷ record { number = 2; value = 4 } ∷ []

abbrev printed_file : TestFile
unfolding to_string digits
printed_file = record {
  config = record {
    properties =
        ((codes "pre", codes "R10"), codes "31") ∷ ((codes "pre", codes "R2"), codes "4") ∷ [];
    sections = codes "pre" ∷ [];
  };
  filename = codes "b.conf";
}

printed_properties :
    get_properties (codes "pre") printed_file.config ≡ print_registers two_registers
unfolding get_properties to_string digits
printed_properties = refl

get_registers-print_registers_example : get_registers (codes "pre") printed_file ≡ ok two_registers
get_registers-print_registers_example =
    get_registers-print_registers (codes "pre") printed_file two_registers
      ((omega arith, omega arith, (omega arith, omega arith, tt))) printed_properties

abbrev lower_file : TestFile
lower_file = record {
  config = record {
    properties = ((codes "pre", codes "r5"), codes "31") ∷ [];
    sections = codes "pre" ∷ [];
  };
  filename = codes "b.conf";
}

lower_section : has_section (codes "pre") lower_file.config ≡ true
unfolding has_section
lower_section = refl

lower_properties :
    get_properties (codes "pre") lower_file.config ≡ (b'r' ∷ to_string 5, codes "31") ∷ []
unfolding get_properties to_string digits
lower_properties = refl

validate_section-letter_example :
    validate_section (codes "pre") lower_file ≡ throw (invalid_register_name (b'r' ∷ to_string 5))
validate_section-letter_example =
    validate_section-letter (codes "pre") lower_file b'r' 5 (codes "31") [] refl (omega arith)
      lower_section lower_properties
