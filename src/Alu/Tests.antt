-- ===== src/Alu/Tests.antt =====
-- The ALU on concrete operands.
use ca.Base.{ℕ, ◌^◌, ◌-◌, ◌≡◌, ◌↔◌, refl, arith, ok, false}
use ca.Base
use ca.Alu.{Alu, AluOp, get_result}
use ca.Alu.Reference.{Overflows, get_result-eq-reference, get_result_undefined_iff}

-- -8 >> 1, arithmetically.
abbrev shift_alu : Alu
shift_alu = record { a = 0xffff_ffff_ffff_fff8; b = 65; op = AluOp.sra }

-- 2147483647 + 1 in 32 bits.
abbrev overflow_alu : Alu
overflow_alu = record { a = 0x7fff_ffff; b = 1; op = AluOp.addw }

get_result-eq-reference_example : get_result shift_alu ≡ ok 0xffff_ffff_ffff_fffc
get_result-eq-reference_example = get_result-eq-reference shift_alu (omega arith) (omega arith) refl

get_result_undefined_iff_example :
    (get_result overflow_alu ≡ Base.Result.undefined) ↔ Overflows AluOp.addw 0x7fff_ffff 1
get_result_undefined_iff_example = get_result_undefined_iff overflow_alu
