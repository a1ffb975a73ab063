-- ===== src/Pipeline/SameMemory.antt =====
-- Buses that differ in their byte counters only, which the pipelined mode counts differently: it
-- also fetches instructions that it discards.
use ca.Base.{
  ℕ, ◌+◌, ◌≡◌, refl, sym, ◌∙◌, arith, Bool, true, false, Outcome, Exception, throws, returns,
  and_then, pure, invalid_size, ◌==◌, if◌then◌else◌, u64,
}
use ca.Base
use ca.Memory.{Width, size_of, byte, half_word, word, double_word}
use ca.MemoryControl.{DataMemory, get_data_out, data_clock_pulse}
use ca.Bus
use ca.Bus.{MemoryBus}

abbrev pub SameMemory : MemoryBus → MemoryBus → Type 0
SameMemory b b' = (b.clients ≡ b'.clients) × (b.cerr ≡ b'.cerr)

pub SameMemory-trans : (a b c : MemoryBus) → SameMemory a b → SameMemory b c → SameMemory a c
SameMemory-trans a b c h k = (h.0 ∙ k.0, h.1 ∙ k.1)

pub SameMemory-sym : (a b : MemoryBus) → SameMemory a b → SameMemory b a
SameMemory-sym a b h = (sym h.0, sym h.1)

-- If the first call returns, the second returns the same, with the same memory.
abbrev pub Alike : {A : Type 0} → Outcome MemoryBus A → Outcome MemoryBus A → Type 0
Alike {A} o o' =
    (c : MemoryBus) (v : A)
    → o ≡ returns v c
    → (c' : MemoryBus) × (o' ≡ returns v c') × SameMemory c c'

if-Alike :
    {A : Type 0} (b : Bool) (x y x' y' : Outcome MemoryBus A)
    → Alike x x'
    → Alike y y'
    → Alike (if b then x else y) (if b then x' else y')
if-Alike true x y x' y' h k = h
if-Alike false x y x' y' h k = k

throws-Alike :
    {A : Type 0} (x : Exception) (b b' : MemoryBus) → Alike {A = A} (throws x b) (throws x b')
throws-Alike x b b' c v e = cc

returns-Alike :
    {A : Type 0} (a : A) (b b' : MemoryBus) → SameMemory b b' → Alike (returns a b) (returns a b')
returns-Alike a b b' same c v e = (b', ground arith, ground arith)

map-Alike :
    {A : Type 0} (f : A → A) (o o' : Outcome MemoryBus A)
    → Alike o o'
    → Alike (and_then o (λ v. pure (f v))) (and_then o' (λ v. pure (f v)))
map-Alike f (returns a b) o' h c v e =
    let (b', done, same) = h b a refl in (b', rw done (ground arith), ground arith)
map-Alike f (throws x b) o' h c v e = cc
map-Alike f Base.Outcome.undefined o' h c v e = cc

-- A read changes its counter only.
pub read-SameMemory :
    (w : Width) (addr v : ℕ) (b c : MemoryBus) → Bus.read w addr b ≡ returns v c → SameMemory b c
unfolding Bus.read
read-SameMemory w addr v b c e = ground arith

pub read-Alike :
    (w : Width) (addr : ℕ) (b b' : MemoryBus)
    → SameMemory b b'
    → Alike (Bus.read w addr b) (Bus.read w addr b')
unfolding Bus.read
read-Alike w addr b b' same c v e = (
  record b' { bytes_read = u64 (b'.bytes_read + size_of w) },
  rw (sym same.0) (ground arith),
  ground arith,
)

write-Alike :
    (w : Width) (addr value : ℕ) (b b' : MemoryBus)
    → SameMemory b b'
    → Alike (Bus.write w addr value b) (Bus.write w addr value b')
unfolding Bus.write
write-Alike w addr value b b' same c v e = (
  record c { bytes_read = b'.bytes_read; bytes_written = u64 (b'.bytes_written + size_of w) },
  ground arith,
  (refl, refl),
)

pub get_data_out-Alike :
    (sign : Bool) (dm : DataMemory) (b b' : MemoryBus)
    → SameMemory b b'
    → Alike (get_data_out sign dm b) (get_data_out sign dm b')
unfolding get_data_out
get_data_out-Alike sign dm b b' same =
    if-Alike dm.read_enable _ _ _ _
      (if-Alike (dm.size == 1) _ _ _ _ (map-Alike _ _ _ (read-Alike byte dm.addr b b' same)) (
        if-Alike (dm.size == 2) _ _ _ _ (map-Alike _ _ _ (read-Alike half_word dm.addr b b' same)) (
          if-Alike (dm.size == 4) _ _ _ _ (map-Alike _ _ _ (read-Alike word dm.addr b b' same)) (
            if-Alike (dm.size == 8) _ _ _ _ (read-Alike double_word dm.addr b b' same)
              (throws-Alike (invalid_size dm.size) b b')))))
      (returns-Alike 0 b b' same)

pub data_clock_pulse-Alike :
    (dm : DataMemory) (b b' : MemoryBus)
    → SameMemory b b'
    → Alike (data_clock_pulse dm b) (data_clock_pulse dm b')
unfolding data_clock_pulse
data_clock_pulse-Alike dm b b' same =
    if-Alike dm.write_enable _ _ _ _
      (if-Alike (dm.size == 1) _ _ _ _ (write-Alike byte dm.addr _ b b' same) (
        if-Alike (dm.size == 2) _ _ _ _ (write-Alike half_word dm.addr _ b b' same) (
          if-Alike (dm.size == 4) _ _ _ _ (write-Alike word dm.addr _ b b' same) (
            if-Alike (dm.size == 8) _ _ _ _ (write-Alike double_word dm.addr _ b b' same)
              (throws-Alike (invalid_size dm.size) b b')))))
      (returns-Alike tt b b' same)
