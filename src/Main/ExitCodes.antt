-- ===== src/Main/ExitCodes.antt =====
-- The exit codes of src/testing.h.
use ca.Base.{ℕ}

abbrev pub success : ℕ
success = 0

abbrev abnormal_termination : ℕ
abnormal_termination = 1

abbrev pub help_displayed : ℕ
help_displayed = 2

abbrev pub initialization_error : ℕ
initialization_error = 3

abbrev pub invalid_argument : ℕ
invalid_argument = 4

abbrev pub unit_test_failed : ℕ
unit_test_failed = 5
