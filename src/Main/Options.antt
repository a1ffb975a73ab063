-- ===== src/Main/Options.antt =====
-- `main` of src/main.cc. What `getopt` makes of the command line is an argument: the options, each
-- a letter with its argument, and the arguments that are left.
use ca.Base.{
  ℕ, Bool, true, false, List, [], ◌∷◌, ◌++◌, Option, none, some, Result, ok, throw, ◌==◌,
  if◌then◌else◌,
}
use ca.Base
use ca.Base.Text.{Text}
use ca.Main.{System}
use ca.Main.Disassembly.{Printed, disasm_file, disasm_single}
use ca.Main.ExitCodes
use ca.Main.Launcher.{Exit, launcher}
use ca.Testing.{RegisterInit, register_init}

pub record Options : Type 0 where
  pub pipelining : Bool
  pub debug_mode : Bool
  pub initializers : List RegisterInit
  pub test_filename : Option Text
  pub disasm_arg : Option Text
  pub disasm_as_file : Bool

abbrev pub default_options : Options
default_options = record {
  pipelining = false;
  debug_mode = false;
  initializers = [];
  test_filename = none;
  disasm_arg = none;
  disasm_as_file = false;
}

-- What an option does: the loop goes on, or `main` returns.
pub data Choice : Type 0 where
  go_on : Options → Choice
  stop : ℕ → Choice
  undefined : Choice

abbrev is_set : Option Text → Bool
is_set none = false
is_set (some text) = true

abbrev add_initializer : Options → Result RegisterInit → Choice
add_initializer o (ok init) = go_on (record o { initializers = o.initializers ++ init ∷ [] })
add_initializer o (throw e) = stop ExitCodes.invalid_argument
add_initializer o Base.Result.undefined = Choice.undefined

abbrev set_disasm : Options → Text → Bool → Choice
set_disasm o optarg as_file =
    if is_set o.disasm_arg
    then stop ExitCodes.initialization_error
    else go_on (record o { disasm_arg = some optarg; disasm_as_file = as_file })

-- The `switch` on the option's letter.
unfoldable pub option : ℕ → Text → Options → Choice
option c optarg o =
    if c == b'd'
    then go_on (record o { debug_mode = true })
    else if c == b'p'
    then go_on (record o { pipelining = true })
    else if c == b'r'
    then (if is_set o.test_filename
        then stop ExitCodes.invalid_argument
        else add_initializer o (register_init optarg))
    else if c == b't'
    then (if is_set o.test_filename
        then stop ExitCodes.invalid_argument
        else go_on (record o { test_filename = some optarg }))
    else if c == b'x'
    then set_disasm o optarg false
    else if c == b'X'
    then set_disasm o optarg true
    else stop ExitCodes.help_displayed

abbrev then_options : Choice → (Options → Choice) → Choice
then_options (go_on o) f = f o
then_options (stop code) f = stop code
then_options Choice.undefined f = Choice.undefined

unfoldable pub all_options : List (ℕ × Text) → Options → Choice
all_options [] o = go_on o
all_options (c ∷ cs) o = then_options (option (c.0) (c.1) o) (all_options cs)

-- What `main` ends with.
pub data Ended : Type 0 where
  disassembled : Result Printed → Ended
  launched : Exit → Ended

abbrev disassemble : System → Text → Bool → Ended
disassemble sys arg as_file =
    disassembled (if as_file then disasm_file sys arg else disasm_single arg)

abbrev launch : System → ℕ → Options → List Text → Ended
launch sys cycles o [] =
    if is_set o.test_filename
    then launched (launcher sys cycles o.test_filename [] o.pipelining o.initializers)
    else launched (Exit.exits ExitCodes.invalid_argument)
launch sys cycles o (arg ∷ args) =
    launched (launcher sys cycles o.test_filename arg o.pipelining o.initializers)

abbrev after_options : System → ℕ → List Text → Choice → Ended
after_options sys cycles args (go_on o) = elim o.disasm_arg [
  | some arg ↦ disassemble sys arg o.disasm_as_file
  | none ↦ launch sys cycles o args
]
after_options sys cycles args (stop code) = launched (Exit.exits code)
after_options sys cycles args Choice.undefined = launched Exit.undefined

unfoldable pub main : System → ℕ → List (ℕ × Text) → List Text → Ended
main sys cycles options args = after_options sys cycles args (all_options options default_options)
