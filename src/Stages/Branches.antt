-- ===== src/Stages/Branches.antt =====
-- The branch conditions of the execute stage.
use ca.Base.{ℕ, ◌+◌, ◌<◌, ◌≤◌, ◌≡◌, arith, true, ◌↔◌, ◌≢◌, ◌⊎◌}
use ca.Base.Int.{pos_part, neg_part, signed}
use ca.Stages.Execute.{evaluate_branch}

-- The order of the integers that two patterns stand for.
abbrev SignedLt : ℕ → ℕ → Type 0
SignedLt a b =
    pos_part (signed 64 a) + neg_part (signed 64 b)
    < pos_part (signed 64 b) + neg_part (signed 64 a)

-- What the manual says of each function code.
abbrev pub Condition : ℕ → ℕ → ℕ → Type 0
Condition funct3 a b =
    ((funct3 ≡ 0) × (a ≡ b))
    ⊎ ((funct3 ≡ 1) × (a ≢ b))
    ⊎ ((funct3 ≡ 4) × SignedLt a b)
    ⊎ ((funct3 ≡ 5) × (¬ SignedLt a b))
    ⊎ ((funct3 ≡ 6) × (a < b))
    ⊎ ((funct3 ≡ 7) × (b ≤ a))

-- For every function code and every two operands, the branch unit says that a branch is taken
-- exactly if the condition of that code holds: equal, different, less or not less as signed
-- numbers, less or not less as unsigned ones; the other codes never branch.
pub evaluate_branch_iff :
    (funct3 a b : ℕ) → (evaluate_branch funct3 a b ≡ true) ↔ Condition funct3 a b
unfolding evaluate_branch
evaluate_branch_iff funct3 a b = (ground arith, ground arith)
