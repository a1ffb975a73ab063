-- ===== src/RegFile.antt =====
-- src/reg-file.h: 31 general-purpose registers and a zero register, with two read ports and a
-- clocked write port.
mod Tests
pub mod Laws
use ca.Base.{
  ℕ, ◌-◌, List, Result, ok, throw, out_of_range, Option, none, some, Bool, false, get_elem?, set,
  replicate, leb, ◌==◌, if◌then◌else◌,
}
use ca.Base

abbrev num_regs : ℕ
num_regs = 32

-- `registers` holds register i at index i - 1.
pub record RegisterFile : Type 0 where
  pub registers : List ℕ
  pub rs1 : ℕ
  pub rs2 : ℕ
  pub rd : ℕ
  pub write_data : ℕ
  pub write_enable : Bool

unfoldable pub initial : RegisterFile
initial = record {
  registers = replicate 31 0;
  rs1 = 0;
  rs2 = 0;
  rd = 0;
  write_data = 0;
  write_enable = false;
}

-- An element of the array, whose bounds C++ does not check.
abbrev pub element : Option ℕ → Result ℕ
element (some v) = ok v
element none = Base.Result.undefined

unfoldable pub read_register : ℕ → RegisterFile → Result ℕ
read_register regnum rf =
    if leb num_regs regnum
    then throw (out_of_range regnum)
    else if regnum == 0
    then ok 0
    else element (get_elem? rf.registers (regnum - 1))

unfoldable pub write_register : ℕ → ℕ → RegisterFile → Result RegisterFile
write_register regnum value rf =
    if leb num_regs regnum
    then throw (out_of_range regnum)
    else if regnum == 0
    then ok rf
    else ok (record rf { registers = set rf.registers (regnum - 1) value })

unfoldable pub get_read_data1 : RegisterFile → Result ℕ
get_read_data1 rf = read_register rf.rs1 rf

unfoldable pub get_read_data2 : RegisterFile → Result ℕ
get_read_data2 rf = read_register rf.rs2 rf

unfoldable pub clock_pulse : RegisterFile → Result RegisterFile
clock_pulse rf = if rf.write_enable then write_register rf.rd rf.write_data rf else ok rf
