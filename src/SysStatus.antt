-- ===== src/SysStatus.antt =====
-- src/sys-status.h and src/sys-status.cc: the device that asks the emulator to halt.
use ca.Base.{
  ℕ, ◌+◌, Result, ok, throw, illegal_access, Bool, true, ◌&&◌, ltb, leb, ◌==◌, if◌then◌else◌, List,
  [], ◌∷◌, u64,
}
use ca.Memory.{Width, byte, half_word, word, double_word}
use ca.Output.{Output, system_halt_requested}

pub record SysStatus : Type 0 where
  pub base : ℕ
  pub should_halt_flag : Bool

unfoldable pub should_halt : SysStatus → Bool
should_halt s = s.should_halt_flag

unfoldable pub read : Width → ℕ → SysStatus → Result ℕ
read w addr s = throw (illegal_access "Not supported on sysstatus interface")

-- The common body of `writeByte` and `writeWord`.
abbrev request_halt : ℕ → SysStatus → Result (SysStatus × List Output)
request_halt addr s =
    if addr == u64 (s.base + 0x8)
    then ok (record s { should_halt_flag = true }, system_halt_requested ∷ [])
    else throw (illegal_access "Invalid system status address")

unfoldable pub write : Width → ℕ → ℕ → SysStatus → Result (SysStatus × List Output)
write byte addr value s = request_halt addr s
write half_word addr value s = throw (illegal_access "Not supported on sysstatus interface")
write word addr value s = request_halt addr s
write double_word addr value s = throw (illegal_access "Not supported on sysstatus interface")

unfoldable pub contains : ℕ → SysStatus → Bool
contains addr s = leb s.base addr && ltb addr (u64 (s.base + 0x10))
