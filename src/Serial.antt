-- ===== src/Serial.antt =====
-- src/serial.h and src/serial.cc: a write-only device of one byte. `read` and `write` stand for the
-- four methods of each direction; a write also returns what it printed.
use ca.Base.{
  ℕ, ◌+◌, Result, ok, throw, illegal_access, Bool, ◌&&◌, ltb, leb, ◌==◌, if◌then◌else◌, List, [],
  ◌∷◌, u64,
}
use ca.Memory.{Width, byte, half_word, word, double_word}
use ca.Output.{Output, character}

pub record Serial : Type 0 where
  pub base : ℕ

unfoldable pub read : Width → ℕ → Serial → Result ℕ
read w addr s = throw (illegal_access "Not supported on serial interface")

unfoldable pub write : Width → ℕ → ℕ → Serial → Result (Serial × List Output)
write byte addr value s =
    if addr == s.base
    then ok (s, character value ∷ [])
    else throw (illegal_access "Invalid address")
write half_word addr value s = throw (illegal_access "Not supported on serial interface")
write word addr value s = throw (illegal_access "Not supported on serial interface")
write double_word addr value s = throw (illegal_access "Not supported on serial interface")

unfoldable pub contains : ℕ → Serial → Bool
contains addr s = leb s.base addr && ltb addr (u64 (s.base + 1))
