-- ===== src/Alu/Reference.antt =====
-- The operations as the RISC-V manual describes them, and the ALU against that.
use ca.Base.{
  ◌≢◌, ℕ, ◌+◌, ◌-◌, ◌*◌, ◌/◌, ◌%◌, ◌^◌, ◌<◌, bit_and, bit_or, bit_xor, ◌≡◌, refl, arith, Result, ok,
  Bool, true, false, ltb, if◌then◌else◌, u32, u64, ◌↔◌, ap,
}
use ca.Base
use ca.Base.Modulus.{mod-mul-mod}
use ca.Base.Int.{◌+ℤ◌, ◌-ℤ◌, ltb_ℤ, signed, unsigned, shift_right_ℤ}
use ca.Base.Bits.{bit_and_mask}
use ca.Alu.{
  Alu, AluOp, nop, add, sub, sll, slt, sltu, xor, srl, sra, or, and, addw, subw, sllw, srlw, sraw,
  compute, get_result, fits_int32,
}

-- A 32-bit pattern, sign-extended to 64 bits.
abbrev pub sext32 : ℕ → ℕ
sext32 n = unsigned 64 (signed 32 n)

-- Sums, differences and shifts of integers, reduced to the width of the register.
abbrev pub reference : AluOp → ℕ → ℕ → ℕ
reference nop a b = 0
reference add a b = unsigned 64 (signed 64 a +ℤ signed 64 b)
reference sub a b = unsigned 64 (signed 64 a -ℤ signed 64 b)
reference sll a b = a * 2 ^ (b % 64) % 2 ^ 64
reference slt a b = if ltb_ℤ (signed 64 a) (signed 64 b) then 1 else 0
reference sltu a b = if ltb a b then 1 else 0
reference xor a b = bit_xor a b
reference srl a b = a / 2 ^ (b % 64)
reference sra a b = unsigned 64 (shift_right_ℤ (signed 64 a) (b % 64))
reference or a b = bit_or a b
reference and a b = bit_and a b
reference addw a b = sext32 ((a + b) % 2 ^ 32)
reference subw a b = sext32 ((a + 2 ^ 64 - b) % 2 ^ 32)
reference sllw a b = sext32 (a * 2 ^ (b % 32) % 2 ^ 32)
reference srlw a b = sext32 (a % 2 ^ 32 / 2 ^ (b % 32))
reference sraw a b = unsigned 64 (shift_right_ℤ (signed 32 (a % 2 ^ 32)) (b % 32))

-- The 32-bit sum or difference of an `addw` or `subw` is one that `int` holds.
abbrev pub no_overflow : AluOp → ℕ → ℕ → Bool
no_overflow addw a b = fits_int32 (signed 32 (u32 a) +ℤ signed 32 (u32 b))
no_overflow subw a b = fits_int32 (signed 32 (u32 a) -ℤ signed 32 (u32 b))
no_overflow _ a b = true

compute-eq-reference :
    (o : AluOp) (a b : ℕ)
    → a < 2 ^ 64
    → b < 2 ^ 64
    → no_overflow o a b ≡ true
    → compute o a b ≡ ok (reference o a b)
unfolding compute
compute-eq-reference nop a b ha hb h = refl
compute-eq-reference add a b ha hb h = ground arith
compute-eq-reference sub a b ha hb h = ground arith
compute-eq-reference sll a b ha hb h = rw (bit_and_mask 6 b)
compute-eq-reference slt a b ha hb h = refl
compute-eq-reference sltu a b ha hb h = refl
compute-eq-reference xor a b ha hb h = refl
compute-eq-reference srl a b ha hb h = rw (bit_and_mask 6 b)
compute-eq-reference sra a b ha hb h = rw (bit_and_mask 6 b)
compute-eq-reference or a b ha hb h = refl
compute-eq-reference and a b ha hb h = refl
compute-eq-reference addw a b ha hb h = ground arith
compute-eq-reference subw a b ha hb h = ground arith
compute-eq-reference sllw a b ha hb h =
    rw (bit_and_mask 5 b) (ap (λ n. ok (sext32 n)) (mod-mul-mod a (2 ^ (b % 32)) (2 ^ 32)))
compute-eq-reference srlw a b ha hb h = rw (bit_and_mask 5 b)
compute-eq-reference sraw a b ha hb h = rw (bit_and_mask 5 b)

-- On operands below 2 ^ 64, and where an addw or subw does not overflow its 32-bit sum or
-- difference, the ALU returns the value of the RISC-V operation: the sum, difference or shift of
-- the integers that the patterns stand for, reduced to the width of the register.
pub get_result-eq-reference :
    (alu : Alu)
    → alu.a < 2 ^ 64
    → alu.b < 2 ^ 64
    → no_overflow alu.op alu.a alu.b ≡ true
    → get_result alu ≡ ok (reference alu.op alu.a alu.b)
unfolding get_result
get_result-eq-reference alu ha hb h = compute-eq-reference alu.op alu.a alu.b ha hb h

-- The integers that the 32-bit operands stand for have a sum or difference that no 32-bit pattern
-- stands for: the wrapped one stands for another.
abbrev pub Overflows : AluOp → ℕ → ℕ → Type 0
Overflows addw a b = signed 32 ((a + b) % 2 ^ 32) ≢ signed 32 (a % 2 ^ 32) +ℤ signed 32 (b % 2 ^ 32)
Overflows subw a b =
    signed 32 ((a % 2 ^ 32 + 2 ^ 32 - b % 2 ^ 32) % 2 ^ 32)
    ≢ signed 32 (a % 2 ^ 32) -ℤ signed 32 (b % 2 ^ 32)
Overflows _ a b = ⊥

undefined_iff : (o : AluOp) (a b : ℕ) → (compute o a b ≡ Base.Result.undefined) ↔ Overflows o a b
unfolding compute
undefined_iff addw a b = (ground arith, ground arith)
undefined_iff subw a b = (ground arith, ground arith)
undefined_iff _ a b = (λ e. cc, λ h. absurd h)

-- The behaviour of the ALU is undefined exactly if the operation is addw or subw and the wrapped
-- 32-bit sum or difference of the operands does not stand for the sum or difference of the integers
-- that the operands stand for, all in two's complement.
pub get_result_undefined_iff :
    (alu : Alu) → (get_result alu ≡ Base.Result.undefined) ↔ Overflows alu.op alu.a alu.b
unfolding get_result
get_result_undefined_iff alu = undefined_iff alu.op alu.a alu.b
