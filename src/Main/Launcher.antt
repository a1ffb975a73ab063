-- ===== src/Main/Launcher.antt =====
-- `validateRegisters` and `launcher` of src/main.cc.
pub mod Verdicts
use ca.Base.{
  ℕ, ◌-◌, Bool, true, false, not, ◌&&◌, ◌||◌, List, [], ◌∷◌, Option, none, some, Result, ok, throw,
  bind, Exception, runtime_error, invalid_argument, out_of_range_error, duplicate_section,
  duplicate_property, section_missing, invalid_register_name, illegal_instruction, out_of_range,
  ◌==◌, ltb, if◌then◌else◌, length, drop,
}
use ca.Base
use ca.Base.Text.{Text, codes, text_eq}
use ca.Memory.{Memory}
use ca.Bus.{Client}
use ca.ElfFile.{ElfFile, load_file, create_memories, get_entrypoint}
use ca.Processor.{Processor, Ending, ended, out_of_fuel, run, initial, init_register, get_register}
use ca.Testing.{
  RegisterInit, TestFile, test_file, get_pre_registers, get_post_registers, get_executable,
}
use ca.Main.{System}
use ca.Main.ExitCodes

-- The comparison goes on after a difference.
unfoldable pub validate_registers : Processor → List RegisterInit → Result Bool
validate_registers p [] = ok true
validate_registers p (r ∷ rs) =
    bind (get_register r.number p)
      λ value. bind (validate_registers p rs) λ rest. ok (r.value == value && rest)

-- How the program ends: with an exit code, by an exception that nothing catches, with undefined
-- behaviour, or not within the cycles that are looked at.
pub data Exit : Type 0 where
  exits : ℕ → Exit
  terminates : Exception → Exit
  undefined : Exit
  still_running : Exit

-- What `launcher` runs.
pub record Setup : Type 0 where
  pub initializers : List RegisterInit
  pub post_registers : List RegisterInit
  pub program_filename : Text

unfoldable pub load_test : System → Text → Result Setup
load_test sys name = bind (test_file name (sys.read_file name)) λ testfile.
    bind (get_pre_registers testfile) λ pre. bind (get_post_registers testfile) λ post.
      bind (get_executable testfile) λ executable.
        ok (record { initializers = pre; post_registers = post; program_filename = executable })

abbrev pub clients_of : List Memory → List Client
clients_of [] = []
clients_of (m ∷ ms) = Client.memory m ∷ clients_of ms

-- `ELFFile` and `Processor`.
unfoldable pub load_program : System → Text → Bool → Result Processor
load_program sys name pipelining = bind (load_file (sys.map_file name)) λ program.
    bind (create_memories sys.aligned_new program) λ memories.
      bind (get_entrypoint program)
        λ entrypoint. ok (initial (clients_of memories) entrypoint pipelining)

unfoldable pub init_registers : List RegisterInit → Processor → Result Processor
init_registers [] p = ok p
init_registers (r ∷ rs) p = bind (init_register r.number r.value p) λ q. init_registers rs q

-- The classes of exceptions that are a `std::runtime_error`.
unfoldable pub is_runtime_error : Exception → Bool
is_runtime_error (runtime_error what) = true
is_runtime_error (duplicate_section n name) = true
is_runtime_error (duplicate_property n name) = true
is_runtime_error (section_missing name) = true
is_runtime_error (invalid_register_name name) = true
is_runtime_error (illegal_instruction what) = true
is_runtime_error _ = false

unfoldable pub is_out_of_range : Exception → Bool
is_out_of_range (out_of_range n) = true
is_out_of_range (out_of_range_error what) = true
is_out_of_range _ = false

-- The `catch` clauses of `launcher`.
unfoldable pub catch_clauses : Exception → Exit
catch_clauses e =
    if is_runtime_error e
    then exits ExitCodes.initialization_error
    else if is_out_of_range e
    then exits ExitCodes.invalid_argument
    else terminates e

unfoldable pub finish_validation : Result Bool → Exit
finish_validation (ok true) = exits ExitCodes.success
finish_validation (ok false) = exits ExitCodes.unit_test_failed
finish_validation (throw e) = catch_clauses e
finish_validation Base.Result.undefined = Exit.undefined

-- What `run` returns is not looked at.
unfoldable pub after_run : List RegisterInit → Ending → Exit
after_run post (ended b p) = finish_validation (validate_registers p post)
after_run post Ending.undefined = Exit.undefined
after_run post (out_of_fuel p) = still_running

unfoldable pub run_processor : ℕ → Bool → List RegisterInit → Result Processor → Exit
run_processor cycles test_mode post (ok p) = after_run post (run cycles test_mode p)
run_processor cycles test_mode post (throw e) = catch_clauses e
run_processor cycles test_mode post Base.Result.undefined = Exit.undefined

unfoldable pub start : System → ℕ → Bool → Bool → Setup → Exit
start sys cycles test_mode pipelining setup =
    run_processor cycles test_mode setup.post_registers (
      bind (load_program sys setup.program_filename pipelining) (init_registers setup.initializers))

-- The inner `catch` takes every exception.
unfoldable pub start_test : System → ℕ → Bool → Result Setup → Exit
start_test sys cycles pipelining (ok setup) = start sys cycles true pipelining setup
start_test sys cycles pipelining (throw e) = exits ExitCodes.initialization_error
start_test sys cycles pipelining Base.Result.undefined = Exit.undefined

unfoldable pub is_conf_name : Text → Bool
is_conf_name name =
    not (ltb (length name) 6) && text_eq (drop (length name - 5) name) (codes ".conf")

-- For a test's file name or, without one, the program's; on a number of cycles.
unfoldable pub launcher : System → ℕ → Option Text → Text → Bool → List RegisterInit → Exit
launcher sys cycles (some test_filename) exec_filename pipelining initializers =
    if is_conf_name test_filename
    then start_test sys cycles pipelining (load_test sys test_filename)
    else exits ExitCodes.invalid_argument
launcher sys cycles none exec_filename pipelining initializers =
    start sys cycles false pipelining (record {
      initializers = initializers;
      post_registers = [];
      program_filename = exec_filename;
    })
