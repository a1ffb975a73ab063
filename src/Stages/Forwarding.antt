-- ===== src/Stages/Forwarding.antt =====
-- src/stages.cc: the value that the decode stage takes from the instruction in the write-back stage,
-- and the register file described as that instruction leaves it.
use ca.Base.{ℕ, ◌<◌, ◌≡◌, arith, true, ◌&&◌, ◌==◌, if◌then◌else◌}
use ca.RegFile.{RegisterFile}
use ca.RegFile.Laws.{IsComplete, value, value-zero, written, value-written}
use ca.Stages.{MWb}
use ca.Stages.Decode.{bypass, write_back_value}

-- The write-back of an instruction in the last stage, as the register file will see it.
abbrev pub commit_write_back : MWb → RegisterFile → RegisterFile
commit_write_back m rf = if m.control.reg_write then written m.rd (write_back_value m) rf else rf

value-commit_write_back :
    (m : MWb) (rf : RegisterFile) (rs : ℕ)
    → IsComplete rf
    → m.rd < 32
    → value (commit_write_back m rf) rs ≡ (
        if m.control.reg_write && (m.rd == rs)
        then (if rs == 0 then 0 else write_back_value m)
        else value rf rs)
value-commit_write_back m rf rs c h =
    ground (arith, value-written rf m.rd rs (write_back_value m) c h, value-zero rf)

-- For a complete register file and a destination register below 32, the value that the decode stage
-- passes on for a register that its instruction uses is the one that the register file holds after
-- the write-back under way.
pub bypass-eq-committed :
    (m : MWb) (rf : RegisterFile) (rs : ℕ)
    → IsComplete rf
    → m.rd < 32
    → bypass m rs true (value rf rs) ≡ value (commit_write_back m rf) rs
unfolding bypass
bypass-eq-committed m rf rs c h = ground (arith, value-commit_write_back m rf rs c h, value-zero rf)
