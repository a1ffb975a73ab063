-- ===== src/Alu.antt =====
-- src/alu.h and src/alu.cc: the ALU on 64-bit operands. A signed value is the integer that its
-- pattern stands for; the 32-bit sums are done in `int`, where overflow is undefined.
mod Tests
pub mod Reference
pub mod Bounds
use ca.Base.{
  ℕ, ◌+◌, ◌-◌, ◌^◌, bit_and, bit_or, bit_xor, Result, ok, Bool, ◌&&◌, ltb, if◌then◌else◌, u32, u64,
  ◌<<<◌, ◌>>>◌,
}
use ca.Base
use ca.Base.Int.{ℤ, pos, negsuc, ◌+ℤ◌, ◌-ℤ◌, ltb_ℤ, signed, unsigned, shift_right_ℤ}

pub data AluOp : Type 0 where
  nop add sub sll slt sltu xor srl sra or and addw subw sllw srlw sraw : AluOp

pub record Alu : Type 0 where
  pub a : ℕ
  pub b : ℕ
  pub op : AluOp

unfoldable pub set_a : ℕ → Alu → Alu
set_a value alu = record alu { a = value }

unfoldable pub set_b : ℕ → Alu → Alu
set_b value alu = record alu { b = value }

unfoldable pub set_op : AluOp → Alu → Alu
set_op value alu = record alu { op = value }

-- What `int` can hold.
abbrev pub fits_int32 : ℤ → Bool
fits_int32 z = ltb_ℤ (negsuc (2 ^ 31)) z && ltb_ℤ z (pos (2 ^ 31))

-- The `int` value of a sum or difference, widened to 64 bits.
abbrev widen_int32 : ℤ → Result ℕ
widen_int32 z = if fits_int32 z then ok (unsigned 64 z) else Base.Result.undefined

-- The `switch` of `getResult`.
unfoldable pub compute : AluOp → ℕ → ℕ → Result ℕ
compute nop a b = ok 0
compute add a b = ok (u64 (a + b))
compute sub a b = ok (u64 (a + 2 ^ 64 - b))
compute sll a b = ok (u64 (a <<< bit_and b 0x3F))
compute slt a b = ok (if ltb_ℤ (signed 64 a) (signed 64 b) then 1 else 0)
compute sltu a b = ok (if ltb a b then 1 else 0)
compute xor a b = ok (bit_xor a b)
compute srl a b = ok (a >>> bit_and b 0x3F)
compute sra a b = ok (unsigned 64 (shift_right_ℤ (signed 64 a) (bit_and b 0x3F)))
compute or a b = ok (bit_or a b)
compute and a b = ok (bit_and a b)
compute addw a b = widen_int32 (signed 32 (u32 a) +ℤ signed 32 (u32 b))
compute subw a b = widen_int32 (signed 32 (u32 a) -ℤ signed 32 (u32 b))
compute sllw a b = ok (unsigned 64 (signed 32 (u32 (u32 a <<< bit_and b 0x1F))))
compute srlw a b = ok (unsigned 64 (signed 32 (u32 a >>> bit_and b 0x1F)))
compute sraw a b = ok (unsigned 64 (shift_right_ℤ (signed 32 (u32 a)) (bit_and b 0x1F)))

unfoldable pub get_result : Alu → Result ℕ
get_result alu = compute alu.op alu.a alu.b
