-- ===== src/Main/Launcher/Verdicts.antt =====
-- The exit code of a unit test in src/main.cc.
use ca.Base.{
  ℕ, ◌<◌, ◌≡◌, refl, Bool, true, ◌&&◌, ◌==◌, List, [], ◌∷◌, some, ok, bind, if◌then◌else◌,
  Bool-cases, inl, inr, IfGives, IfGives-bind, IfGives-of_eq, IfGives-Unit,
}
use ca.Base.Text.{Text}
use ca.ElfFile.{load_file, create_memories, get_entrypoint}
use ca.Main.{System}
use ca.Main.ExitCodes
use ca.Main.Launcher.{
  Exit, exits, still_running, Setup, validate_registers, load_test, load_program, init_registers,
  finish_validation, after_run, run_processor, start, start_test, is_conf_name, launcher,
  clients_of,
}
use ca.Processor.{Processor, Ending, ended, out_of_fuel, run, init_register, get_register}
use ca.Processor.WellFormed.{
  EndsWith, run-IsWellFormed, initial-IsWellFormed_lem, init_register-IsWellFormed,
}
use ca.RegFile.Laws.{value, read_register-eq-value}
use ca.Stages.WellFormed.{IsWellFormed}
use ca.Testing.{RegisterInit}

-- The registers have the values that are listed.
abbrev pub all_as_expected : Processor → List RegisterInit → Bool
all_as_expected p [] = true
all_as_expected p (r ∷ rs) = r.value == value p.pipeline.regfile r.number && all_as_expected p rs

abbrev pub AreNumbers : List RegisterInit → Type 0
AreNumbers [] = Unit
AreNumbers (r ∷ rs) = (r.number < 32) × AreNumbers rs

validate_registers-eq-all_as_expected :
    (p : Processor) (rs : List RegisterInit)
    → IsWellFormed p.pipeline
    → AreNumbers rs
    → validate_registers p rs ≡ ok (all_as_expected p rs)
unfolding validate_registers get_register
validate_registers-eq-all_as_expected p [] w h = refl
validate_registers-eq-all_as_expected p (r ∷ rs) w h =
    rw
      (
        read_register-eq-value p.pipeline.regfile r.number w.complete (h.0),
        validate_registers-eq-all_as_expected p rs w (h.1),
      )
      refl

-- The exit code for how the run has ended.
abbrev pub expected_exit : List RegisterInit → Ending → Exit
expected_exit post (ended b q) =
    exits (if all_as_expected q post then ExitCodes.success else ExitCodes.unit_test_failed)
expected_exit post Ending.undefined = Exit.undefined
expected_exit post (out_of_fuel q) = still_running

after_run-eq-expected_exit :
    (post : List RegisterInit) (e : Ending)
    → EndsWith (λ q. IsWellFormed q.pipeline) e
    → AreNumbers post
    → after_run post e ≡ expected_exit post e
unfolding after_run finish_validation
after_run-eq-expected_exit post (ended b q) w h =
    rw (validate_registers-eq-all_as_expected q post w h)
      (elim (Bool-cases (all_as_expected q post)) [ inl a ↦ rw a refl | inr a ↦ rw a refl ])
after_run-eq-expected_exit post Ending.undefined w h = refl
after_run-eq-expected_exit post (out_of_fuel q) w h = refl

init_registers-IsWellFormed :
    (rs : List RegisterInit) (p : Processor)
    → IsWellFormed p.pipeline
    → IfGives (λ q. IsWellFormed q.pipeline) (init_registers rs p)
unfolding init_registers
init_registers-IsWellFormed [] p w = w
init_registers-IsWellFormed (r ∷ rs) p w =
    IfGives-bind (λ q. IsWellFormed q.pipeline) (λ q. IsWellFormed q.pipeline)
      (init_register r.number r.value p) _
      (IfGives-of_eq _ (init_register r.number r.value p)
        λ q e. init_register-IsWellFormed r.number r.value p q w e)
      λ q v. init_registers-IsWellFormed rs q v

load_program-IsWellFormed :
    (sys : System) (name : Text) (pipelining : Bool)
    → IfGives (λ p. IsWellFormed p.pipeline) (load_program sys name pipelining)
unfolding load_program
load_program-IsWellFormed sys name pipelining =
    IfGives-bind (λ _. Unit) _ (load_file (sys.map_file name)) _ (IfGives-Unit _)
      λ program _.
        IfGives-bind (λ _. Unit) _ (create_memories sys.aligned_new program) _ (IfGives-Unit _)
          λ memories _.
            IfGives-bind (λ _. Unit) _ (get_entrypoint program) _ (IfGives-Unit _)
              λ entrypoint _. initial-IsWellFormed_lem (clients_of memories) entrypoint pipelining

started-IsWellFormed :
    (sys : System) (name : Text) (pipelining : Bool) (rs : List RegisterInit)
    → IfGives
        (λ p. IsWellFormed p.pipeline)
        (bind (load_program sys name pipelining) (init_registers rs))
started-IsWellFormed sys name pipelining rs =
    IfGives-bind (λ p. IsWellFormed p.pipeline) (λ p. IsWellFormed p.pipeline)
      (load_program sys name pipelining) (init_registers rs)
      (load_program-IsWellFormed sys name pipelining) (init_registers-IsWellFormed rs)

-- For a unit test whose name ends in .conf, whose configuration and program load and whose initial
-- registers can be set, and whose expected registers have numbers below 32: for every number of
-- cycles, the launcher ends with success if the run ends, however it ends, with all expected values
-- in the registers, and with the code for a failed test if it ends with another value; it is still
-- running or undefined exactly where the main loop is.
pub launcher-expected_exit :
    (sys : System) (cycles : ℕ) (name exec_filename : Text) (pipelining : Bool)
    (initializers : List RegisterInit) (setup : Setup) (p : Processor)
    → is_conf_name name ≡ true
    → load_test sys name ≡ ok setup
    → bind (load_program sys setup.program_filename pipelining) (init_registers setup.initializers)
      ≡ ok p
    → AreNumbers setup.post_registers
    → launcher sys cycles (some name) exec_filename pipelining initializers
      ≡ expected_exit setup.post_registers (run cycles true p)
unfolding launcher start_test start run_processor
launcher-expected_exit sys cycles name exec_filename pipelining initializers setup p conf test
      program numbers =
    let w : IsWellFormed p.pipeline =
      rw program at
        (started-IsWellFormed sys setup.program_filename pipelining setup.initializers) in
    rw (conf, test, program)
      (after_run-eq-expected_exit setup.post_registers (run cycles true p)
        (run-IsWellFormed cycles true p w) numbers)
