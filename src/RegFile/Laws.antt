-- ===== src/RegFile/Laws.antt =====
-- The register file as a map from register numbers to values in which register 0 is constant.
use ca.Base.{
  ℕ, ◌-◌, ◌<◌, ◌≡◌, refl, arith, ok, length, length-set, get_or, get_or-set, set,
  get_elem?-eq-get_or, ◌==◌, if◌then◌else◌,
}
use ca.RegFile.{RegisterFile, initial, read_register, write_register, clock_pulse}

-- All 31 registers are there.
abbrev pub IsComplete : RegisterFile → Type 0
IsComplete rf = length rf.registers ≡ 31

pub initial-IsComplete : IsComplete initial
unfolding initial
initial-IsComplete = refl

-- The value that a register holds.
unfoldable pub value : RegisterFile → ℕ → ℕ
value rf i = if i == 0 then 0 else get_or rf.registers (i - 1) 0

pub value-zero : (rf : RegisterFile) → value rf 0 ≡ 0
unfolding value
value-zero rf = refl

-- The file after a write.
unfoldable pub written : ℕ → ℕ → RegisterFile → RegisterFile
written i v rf = if i == 0 then rf else record rf { registers = set rf.registers (i - 1) v }

pub read_register-eq-value :
    (rf : RegisterFile) (i : ℕ) → IsComplete rf → i < 32 → read_register i rf ≡ ok (value rf i)
unfolding read_register value
read_register-eq-value rf i c h = ground (arith, get_elem?-eq-get_or rf.registers (i - 1) 0)

write_register-eq-written :
    (rf : RegisterFile) (i v : ℕ) → i < 32 → write_register i v rf ≡ ok (written i v rf)
unfolding write_register written
write_register-eq-written rf i v h = ground arith

pub written-IsComplete : (rf : RegisterFile) (i v : ℕ) → IsComplete rf → IsComplete (written i v rf)
unfolding written
written-IsComplete rf i v c = ground (arith, length-set rf.registers (i - 1) v)

pub value-written :
    (rf : RegisterFile) (i j v : ℕ)
    → IsComplete rf
    → i < 32
    → value (written i v rf) j ≡ (if j == 0 then 0 else if i == j then v else value rf j)
unfolding value written
value-written rf i j v c hi = ground (arith, get_or-set rf.registers (i - 1) (j - 1) v 0)

-- In a complete register file, a write to a register below 32 succeeds and keeps the file complete.
-- A register below 32 then reads as 0 if it is register 0, as the value if it is the one written,
-- and as before otherwise.
pub read_register-write_register :
    (rf : RegisterFile) (i j v : ℕ)
    → IsComplete rf
    → i < 32
    → j < 32
    → (rf' : RegisterFile) × (write_register i v rf ≡ ok rf')
      × IsComplete rf'
      × (read_register j rf'
          ≡ (if j == 0 then ok 0 else if i == j then ok v else read_register j rf))
read_register-write_register rf i j v c hi hj = (
  written i v rf,
  write_register-eq-written rf i v hi,
  written-IsComplete rf i v c,
  rw
      (
        read_register-eq-value (written i v rf) j (written-IsComplete rf i v c) hj,
        value-written rf i j v c hi,
        read_register-eq-value rf j c hj,
      )
      (ground arith),
)

-- A clock pulse changes nothing but the registers.
pub clock_pulse-IsComplete :
    (rf : RegisterFile)
    → IsComplete rf
    → (rf' : RegisterFile) → clock_pulse rf ≡ ok rf'
    → IsComplete rf' × (rf' ≡ record rf { registers = rf'.registers })
unfolding clock_pulse write_register
clock_pulse-IsComplete rf c rf' e =
    ground (arith, length-set rf.registers (rf.rd - 1) rf.write_data)
