-- ===== src/MemoryControl.antt =====
-- src/memory-control.h and src/memory-control.cc: the two ports through which the stages use the
-- bus. The bus that they refer to is the state of each action.
pub mod LoadStore
mod Tests
use ca.Base.{
  ℕ, Result, ok, throw, Action, throws, returns, invalid_size, Bool, false, if◌then◌else◌, ◌==◌,
  ◌||◌, u8, u16, u32, ◌>>=◌, pure,
}
use ca.Base.Int.{signed, unsigned}
use ca.Memory.{byte, half_word, word, double_word}
use ca.Bus
use ca.Bus.{MemoryBus}

pub record InstructionMemory : Type 0 where
  pub size : ℕ
  pub addr : ℕ

pub record DataMemory : Type 0 where
  pub size : ℕ
  pub addr : ℕ
  pub data_in : ℕ
  pub read_enable : Bool
  pub write_enable : Bool

unfoldable pub initial_instruction_memory : InstructionMemory
initial_instruction_memory = record { size = 0; addr = 0 }

unfoldable pub initial_data_memory : DataMemory
initial_data_memory = record {
  size = 0;
  addr = 0;
  data_in = 0;
  read_enable = false;
  write_enable = false;
}

unfoldable pub set_instruction_size : ℕ → InstructionMemory → Result InstructionMemory
set_instruction_size size im =
    if size == 2 || size == 4 then ok (record im { size = size }) else throw (invalid_size size)

unfoldable pub set_instruction_address : ℕ → InstructionMemory → InstructionMemory
set_instruction_address addr im = record im { addr = addr }

unfoldable pub get_value : InstructionMemory → Action MemoryBus ℕ
get_value im bus =
    if im.size == 2
    then Bus.read half_word im.addr bus
    else if im.size == 4
    then Bus.read word im.addr bus
    else throws (invalid_size im.size) bus

unfoldable pub set_data_size : ℕ → DataMemory → Result DataMemory
set_data_size size dm =
    if size == 1 || size == 2 || size == 4 || size == 8
    then ok (record dm { size = size })
    else throw (invalid_size size)

unfoldable pub set_data_address : ℕ → DataMemory → DataMemory
set_data_address addr dm = record dm { addr = addr }

unfoldable pub set_data_in : ℕ → DataMemory → DataMemory
set_data_in value dm = record dm { data_in = value }

unfoldable pub set_read_enable : Bool → DataMemory → DataMemory
set_read_enable setting dm = record dm { read_enable = setting }

unfoldable pub set_write_enable : Bool → DataMemory → DataMemory
set_write_enable setting dm = record dm { write_enable = setting }

-- A value of `w` bits, widened to 64 with its sign or without.
abbrev widen : ℕ → Bool → ℕ → ℕ
widen w sign_extend v = if sign_extend then unsigned 64 (signed w v) else v

unfoldable pub get_data_out : Bool → DataMemory → Action MemoryBus ℕ
get_data_out sign_extend dm bus =
    if dm.read_enable
    then (if dm.size == 1
        then (Bus.read byte dm.addr >>= λ v. pure (widen 8 sign_extend v)) bus
        else if dm.size == 2
        then (Bus.read half_word dm.addr >>= λ v. pure (widen 16 sign_extend v)) bus
        else if dm.size == 4
        then (Bus.read word dm.addr >>= λ v. pure (widen 32 sign_extend v)) bus
        else if dm.size == 8
        then Bus.read double_word dm.addr bus
        else throws (invalid_size dm.size) bus)
    else returns 0 bus

unfoldable pub data_clock_pulse : DataMemory → Action MemoryBus (Unit {0})
data_clock_pulse dm bus =
    if dm.write_enable
    then (if dm.size == 1
        then Bus.write byte dm.addr (u8 dm.data_in) bus
        else if dm.size == 2
        then Bus.write half_word dm.addr (u16 dm.data_in) bus
        else if dm.size == 4
        then Bus.write word dm.addr (u32 dm.data_in) bus
        else if dm.size == 8
        then Bus.write double_word dm.addr dm.data_in bus
        else throws (invalid_size dm.size) bus)
    else returns tt bus
