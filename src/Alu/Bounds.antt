-- ===== src/Alu/Bounds.antt =====
-- src/alu.cc: the ALU's results fit the registers.
use ca.Base.{ℕ, ◌^◌, ◌<◌, arith, bit_and, IfGives}
use ca.Base.Int.{ℤ, pos, negsuc, unsigned}
use ca.Base.Bits.{bit_operations_below}
use ca.Alu.{
  Alu, AluOp, nop, add, sub, sll, slt, sltu, xor, srl, sra, or, and, addw, subw, sllw, srlw, sraw,
  compute, get_result,
}
use native.Mathlib.Nat.{div-le_self}

pub unsigned_below : (z : ℤ) → unsigned 64 z < 2 ^ 64
unsigned_below (pos n) = omega arith
unsigned_below (negsuc n) = omega arith

compute_below :
    (o : AluOp) (a b : ℕ) → a < 2 ^ 64 → b < 2 ^ 64 → IfGives (λ r. r < 2 ^ 64) (compute o a b)
unfolding compute
compute_below nop a b ha hb = omega arith
compute_below add a b ha hb = omega arith
compute_below sub a b ha hb = omega arith
compute_below sll a b ha hb = omega arith
compute_below slt a b ha hb = ground arith
compute_below sltu a b ha hb = ground arith
compute_below xor a b ha hb = (bit_operations_below 64 a b ha hb).2
compute_below srl a b ha hb = omega (arith, div-le_self a (2 ^ bit_and b 0x3F))
compute_below sra a b ha hb = unsigned_below _
compute_below or a b ha hb = (bit_operations_below 64 a b ha hb).1
compute_below and a b ha hb = (bit_operations_below 64 a b ha hb).0
compute_below addw a b ha hb = ground arith
compute_below subw a b ha hb = ground arith
compute_below sllw a b ha hb = unsigned_below _
compute_below srlw a b ha hb = unsigned_below _
compute_below sraw a b ha hb = unsigned_below _

pub get_result_below :
    (alu : Alu) → alu.a < 2 ^ 64 → alu.b < 2 ^ 64 → IfGives (λ r. r < 2 ^ 64) (get_result alu)
unfolding get_result
get_result_below alu ha hb = compute_below alu.op alu.a alu.b ha hb
