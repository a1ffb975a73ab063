-- ===== src/Memory/Overrun.antt =====
-- Where a segment ends less than eight bytes below 2 ^ 64, the sum in `canAccess` wraps.
use ca.Base.{ℕ, ◌+◌, ◌^◌, ◌<◌, ◌≤◌, ◌≡◌, arith, true, length, String, List, replicate}
use ca.Base
use ca.Memory.Bytes.{load_outside}
use ca.Memory.{Memory, Width, size_of, byte, contains, can_access, read_data}
use ca.Memory.Access.{offset}

size_of-pos : (w : Width) → (0 < size_of w) × (size_of w ≤ 8)
size_of-pos byte = omega arith
size_of-pos _ = omega arith

-- For a segment whose array has its size and that ends below 2 ^ 64, a read at a 64-bit address in
-- the segment whose end reaches 2 ^ 64 has undefined behaviour: it is allowed, and reads past the
-- array.
pub read_data_undefined :
    (m : Memory) (w : Width) (addr : ℕ)
    → length m.bytes ≡ m.size
    → m.base + m.size < 2 ^ 64
    → addr < 2 ^ 64
    → contains addr m ≡ true
    → 2 ^ 64 ≤ addr + size_of w
    → read_data w addr m ≡ Base.Result.undefined
unfolding read_data can_access contains
read_data_undefined m w addr allocated fits ha c wraps =
    ground (arith, size_of-pos w, load_outside (size_of w) m.bytes (offset m addr))
