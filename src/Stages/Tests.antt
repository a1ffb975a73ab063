-- ===== src/Stages/Tests.antt =====
-- The branch unit and the execute stage at concrete values.
use ca.Alu.{Alu}
use ca.Alu
use ca.Base.Int.{pos}
use ca.Stages.Bounds.{IsBounded, execute_instruction-IsBounded}
use ca.Base.{◌≡◌, ◌↔◌, ◌^◌, ◌-◌, arith, true, IfGives, ◌<◌}
use ca.Control.{no_signals}
use ca.Decoder.{jalr}
use ca.Stages.{IdEx, empty_id_ex}
use ca.Stages.Execute.{execute_instruction, evaluate_branch}
use ca.Stages.Branches.{Condition, evaluate_branch_iff}

-- -1 < 1, signed.
evaluate_branch_iff_example : (evaluate_branch 4 (2 ^ 64 - 1) 1 ≡ true) ↔ Condition 4 (2 ^ 64 - 1) 1
evaluate_branch_iff_example = evaluate_branch_iff 4 (2 ^ 64 - 1) 1

abbrev idle_alu : Alu
idle_alu = record { a = 0; b = 0; op = Alu.nop }

-- jalr r1, 2(r5) at 0x40, with an odd value in r5.
abbrev jumping : IdEx
jumping = record empty_id_ex {
  pc = 0x40;
  immediate = pos 2;
  rs1 = 5;
  rd = 1;
  opcode = jalr;
  control = record no_signals { is_jump = true; reg_write = true };
}

execute_instruction-IsBounded_example :
    IfGives
      (λ r. IsBounded jumping r.0 × (r.1.a < 2 ^ 64) × (r.1.b < 2 ^ 64))
      (execute_instruction jumping idle_alu 0x2001 0)
execute_instruction-IsBounded_example =
    execute_instruction-IsBounded jumping idle_alu 0x2001 0 (omega arith) (omega arith)
      (omega arith)
