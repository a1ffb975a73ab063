-- ===== src/Memory.antt =====
-- src/memory.h and src/memory.cc: one segment of memory. The array behind `data` is a list of
-- bytes; an access outside it is undefined. Multi-byte values are stored least significant byte
-- first, which is what `reinterpret_cast` gives on the little-endian hosts that the program is for.
mod Tests
pub mod Bytes
pub mod Access
pub mod Overrun
use ca.Base.{
  ℕ, ◌+◌, ◌-◌, ◌*◌, ◌^◌, Result, ok, throw, illegal_access_of_size, Option, none, some, Bool, true,
  false, not, ◌&&◌, ◌||◌, ltb, leb, if◌then◌else◌, List, u64, String,
}
use ca.Base
use Bytes.{load, store}

-- The sizes of the four access methods of `MemoryInterface`.
pub data Width : Type 0 where
  byte half_word word double_word : Width

abbrev pub size_of : Width → ℕ
size_of byte = 1
size_of half_word = 2
size_of word = 4
size_of double_word = 8

pub record Memory : Type 0 where
  pub name : String
  pub may_write : Bool
  pub base : ℕ
  pub size : ℕ
  pub align : ℕ
  pub bytes : List ℕ

unfoldable pub set_may_write : Bool → Memory → Memory
set_may_write setting m = record m { may_write = setting }

unfoldable pub contains : ℕ → Memory → Bool
contains addr m = leb m.base addr && ltb addr (u64 (m.base + m.size))

unfoldable pub can_access : ℕ → ℕ → Bool → Memory → Bool
can_access addr access_size write m =
    if ltb addr m.base || ltb (u64 (m.base + m.size)) (u64 (addr + access_size))
    then false
    else if write && not m.may_write
    then false
    else true

abbrev pub loaded : Option ℕ → Result ℕ
loaded (some v) = ok v
loaded none = Base.Result.undefined

abbrev pub stored : Memory → Option (List ℕ) → Result Memory
stored m (some bytes) = ok (record m { bytes = bytes })
stored m none = Base.Result.undefined

-- The four read methods are `read_data` at their width.
unfoldable pub read_data : Width → ℕ → Memory → Result ℕ
read_data w addr m =
    let effective_addr = u64 (addr + 2 ^ 64 - m.base) in
    if can_access addr (size_of w) false m
    then loaded (load (size_of w) m.bytes effective_addr)
    else throw (illegal_access_of_size addr (size_of w))

unfoldable pub write_data : Width → ℕ → ℕ → Memory → Result Memory
write_data w addr value m =
    let effective_addr = u64 (addr + 2 ^ 64 - m.base) in
    if can_access addr (size_of w) true m
    then stored m (store (size_of w) m.bytes effective_addr value)
    else throw (illegal_access_of_size addr (size_of w))
