-- ===== src/Main.antt =====
-- src/main.cc: starting the emulator. What is printed for the user is left out, except for the
-- disassembly. The system's part is a record of functions: what a configuration file holds, what
-- mapping a file gives, and the allocator.
pub mod ExitCodes
pub mod Launcher
pub mod Disassembly
pub mod Options
mod Tests
use ca.Base.{ℕ, Bool, List, Option, Result}
use ca.Base.Text.{Text}

pub record System : Type 0 where
  -- `std::ifstream`: the bytes of a file, or nothing.
  pub read_file : Text → Option Text
  -- `open`, `fstat` and `mmap`.
  pub map_file : Text → Result (List ℕ)
  -- `fs::exists` and `fs::is_directory`.
  pub exists : Text → Bool
  pub is_directory : Text → Bool
  -- The address of a new array, for its size and alignment.
  pub aligned_new : ℕ → ℕ → Option ℕ
