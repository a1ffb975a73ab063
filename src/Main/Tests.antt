-- ===== src/Main/Tests.antt =====
-- A unit test of a program with one instruction, its disassembly, and some command lines.
use ca.Base.{
  ℕ, ◌≡◌, refl, arith, Bool, true, false, ok, throw, some, none, bind, List, [], ◌∷◌, Option,
  Result, replicate,
}
use ca.Base
use ca.Base.Decimal.{
  stoul, stoull_any, stoi, stoul_hex, to_unsigned, to_int, magnitude, magnitude_any, magnitude_hex,
  accumulate, split_sign,
}
use ca.Base.Regex.{regex_match, match_from, many_match, one_match}
use ca.Base.Text.{codes}
use ca.ConfigFile.{
  load, load_lines, load_line, classify, has_section, has_property, add_property, add_section,
  get_properties,
}
use ca.ElfFile.{
  field, section_header, load_file, is_elf, is_target, foreach_from, foreach_segment, copy_n,
  create_memory, create_memories, get_entrypoint,
}
use ca.ElfFile.Example.{program, file, text, text_is_found}
use ca.Main.{System}
use ca.Main.Disassembly.{disasm_elf_file, disasm_single}
use ca.Main.Disassembly.Overread.{disasm_elf_file-undefined}
use ca.Main.ExitCodes
use ca.Main.Launcher.{
  Setup, load_test, load_program, init_registers, is_conf_name, launcher, clients_of,
}
use ca.Main.Launcher.Verdicts.{expected_exit, launcher-expected_exit}
use ca.Main.Options.{default_options, go_on, stop, option, all_options}
use ca.Memory.{Memory, set_may_write}
use ca.Memory.Bytes
use ca.Processor.{Processor, run, initial, init_register}
use ca.RegFile
use ca.Pipeline
use ca.Testing.{
  register_init, validate_section, validate, test_file, register_number, registers_of,
  get_registers, get_pre_registers, get_post_registers, get_executable,
}

abbrev sys : System
sys = record {
  read_file = λ name. some (codes "[pre]\nR2=4\n[post]\nR1=58");
  map_file = λ name. ok program;
  exists = λ name. true;
  is_directory = λ name. false;
  aligned_new = λ size align. some 4096;
}

abbrev setup : Setup
setup = record {
  initializers = record { number = 2; value = 4 } ∷ [];
  post_registers = record { number = 1; value = 58 } ∷ [];
  program_filename = codes "a.bin";
}

test_is_loaded : load_test sys (codes "a.conf") ≡ ok setup
unfolding load_test test_file validate validate_section get_properties load load_lines load_line
    classify has_section has_property add_property add_section regex_match match_from many_match
    one_match get_pre_registers get_post_registers get_registers registers_of register_number stoi
    to_int stoull_any to_unsigned magnitude magnitude_any accumulate split_sign get_executable
test_is_loaded = refl

abbrev text_memory : Memory
text_memory = record {
  name = "text";
  may_write = true;
  base = 4096;
  size = 4;
  align = 4;
  bytes = text.bytes;
}

abbrev start_processor : Processor
start_processor = initial (clients_of (text_memory ∷ [])) 4096 false

program_is_loaded : load_program sys (codes "a.bin") false ≡ ok start_processor
unfolding load_program load_file is_elf is_target create_memories create_memory foreach_segment
    foreach_from copy_n section_header field Bytes.load set_may_write get_entrypoint
program_is_loaded = refl

-- Register 2 has its initial value.
abbrev ready_processor : Processor
unfolding initial RegFile.initial
ready_processor = record start_processor {
  pipeline = record (start_processor.pipeline) {
    regfile = record RegFile.initial { registers = 0 ∷ 4 ∷ replicate 29 0 };
  };
}

registers_are_set : init_registers setup.initializers start_processor ≡ ok ready_processor
unfolding init_registers init_register RegFile.write_register initial RegFile.initial
    ready_processor Pipeline.initial
registers_are_set = refl

processor_is_ready :
    bind (load_program sys setup.program_filename false) (init_registers setup.initializers)
    ≡ ok ready_processor
processor_is_ready = rw program_is_loaded registers_are_set

conf_name : is_conf_name (codes "a.conf") ≡ true
unfolding is_conf_name
conf_name = refl

launcher-expected_exit_example :
    launcher sys 5 (some (codes "a.conf")) [] false []
    ≡ expected_exit setup.post_registers (run 5 true ready_processor)
launcher-expected_exit_example =
    launcher-expected_exit sys 5 (codes "a.conf") [] false [] setup ready_processor conf_name
      test_is_loaded processor_is_ready (omega arith, tt)

disasm_elf_file-undefined_example : disasm_elf_file file ≡ Base.Result.undefined
disasm_elf_file-undefined_example =
    disasm_elf_file-undefined file text text_is_found refl (omega arith)

-- A register and then a test are accepted together; a test and then a register are not.
register_then_test :
    all_options ((b'r', codes "r1=5") ∷ (b't', codes "a.conf") ∷ []) default_options
    ≡ go_on (record default_options {
      initializers = record { number = 1; value = 5 } ∷ [];
      test_filename = some (codes "a.conf");
    })
unfolding all_options option register_init regex_match match_from many_match one_match stoul
    stoull_any to_unsigned magnitude magnitude_any accumulate split_sign
register_then_test = refl

test_then_register :
    all_options ((b't', codes "a.conf") ∷ (b'r', codes "r1=5") ∷ []) default_options
    ≡ stop ExitCodes.invalid_argument
unfolding all_options option
test_then_register = refl

not_a_number : disasm_single (codes "xyz") ≡ ok ([], ExitCodes.invalid_argument)
unfolding disasm_single stoul_hex to_unsigned magnitude_hex magnitude split_sign
not_a_number = refl
