-- ===== src/RegFile/Tests.antt =====
-- The register file at concrete registers.
use ca.Base.{◌≡◌, arith, ok}
use ca.RegFile.{RegisterFile, initial, read_register, write_register}
use ca.RegFile.Laws.{IsComplete, initial-IsComplete, read_register-write_register}

read_register-write_register_example :
    (rf' : RegisterFile) × (write_register 7 42 initial ≡ ok rf')
    × IsComplete rf'
    × (read_register 7 rf' ≡ ok 42)
read_register-write_register_example =
    read_register-write_register initial 7 7 42 initial-IsComplete (omega arith) (omega arith)
