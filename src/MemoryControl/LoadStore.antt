-- ===== src/MemoryControl/LoadStore.antt =====
-- src/memory-control.cc: a load through the data port after a store through it.
use ca.Base.{
  ℕ, ◌+◌, ◌*◌, ◌%◌, ◌^◌, ◌<◌, ◌≡◌, refl, sym, ap, ◌∙◌, arith, Bool, true, false, some, returns, u8,
  u16, u32, u64,
}
use ca.Base.Int.{signed, unsigned}
use ca.Memory.{Memory, Width, size_of, byte, half_word, word, double_word}
use ca.Bus
use ca.Bus.{MemoryBus, memory, find_client}
use ca.Bus.Routing.{read-write}
use ca.MemoryControl.{DataMemory, get_data_out, data_clock_pulse}

-- The 64-bit pattern `r` is the value `v` cut to the width: as integers in two's complement, or as
-- natural numbers.
abbrev pub IsLoaded : Width → Bool → ℕ → ℕ → Type 0
IsLoaded w true v r = (r < 2 ^ 64) × (signed 64 r ≡ signed (8 * size_of w) (v % 256 ^ size_of w))
IsLoaded w false v r = (r < 2 ^ 64) × (r ≡ v % 256 ^ size_of w)

-- The conversion that the port does.
abbrev extended : Width → Bool → ℕ → ℕ
extended double_word sign x = x
extended w true x = unsigned 64 (signed (8 * size_of w) x)
extended w false x = x

signed_lem :
    (w : Width) (x : ℕ)
    → x < 256 ^ size_of w
    → (extended w true x < 2 ^ 64) × (signed 64 (extended w true x) ≡ signed (8 * size_of w) x)
signed_lem byte x h = ground arith
signed_lem half_word x h = ground arith
signed_lem word x h = ground arith
signed_lem double_word x h = (omega arith, refl)

extended-IsLoaded :
    (w : Width) (sign : Bool) (v : ℕ) → IsLoaded w sign v (extended w sign (v % 256 ^ size_of w))
extended-IsLoaded byte true v = signed_lem byte (v % 256) (omega arith)
extended-IsLoaded half_word true v = signed_lem half_word (v % 65536) (omega arith)
extended-IsLoaded word true v = signed_lem word (v % 4294967296) (omega arith)
extended-IsLoaded double_word true v = (omega arith, refl)
extended-IsLoaded byte false v = (omega arith, refl)
extended-IsLoaded half_word false v = (omega arith, refl)
extended-IsLoaded word false v = (omega arith, refl)
extended-IsLoaded double_word false v = (omega arith, refl)

-- What the port hands to the bus.
cut : Width → ℕ → ℕ
cut byte v = u8 v
cut half_word v = u16 v
cut word v = u32 v
cut double_word v = v

store_lem :
    (w : Width) (dm : DataMemory) (bus : MemoryBus)
    → dm.write_enable ≡ true
    → dm.size ≡ size_of w
    → data_clock_pulse dm bus ≡ Bus.write w dm.addr (cut w dm.data_in) bus
unfolding data_clock_pulse cut
store_lem byte dm bus on sized = rw (on, sized) refl
store_lem half_word dm bus on sized = rw (on, sized) refl
store_lem word dm bus on sized = rw (on, sized) refl
store_lem double_word dm bus on sized = rw (on, sized) refl

load_lem :
    (w : Width) (sign : Bool) (dm : DataMemory) (x : ℕ) (bus bus' : MemoryBus)
    → dm.read_enable ≡ true
    → dm.size ≡ size_of w
    → Bus.read w dm.addr bus ≡ returns x bus'
    → get_data_out sign dm bus ≡ returns (extended w sign x) bus'
unfolding get_data_out
load_lem byte true dm x bus bus' on sized e = rw (on, sized, e) refl
load_lem byte false dm x bus bus' on sized e = rw (on, sized, e) refl
load_lem half_word true dm x bus bus' on sized e = rw (on, sized, e) refl
load_lem half_word false dm x bus bus' on sized e = rw (on, sized, e) refl
load_lem word true dm x bus bus' on sized e = rw (on, sized, e) refl
load_lem word false dm x bus bus' on sized e = rw (on, sized, e) refl
load_lem double_word sign dm x bus bus' on sized e = rw (on, sized, e) refl

cut_lem : (w : Width) (v : ℕ) → cut w v % 256 ^ size_of w ≡ v % 256 ^ size_of w
unfolding cut
cut_lem byte v = omega arith
cut_lem half_word v = omega arith
cut_lem word v = omega arith
cut_lem double_word v = refl

-- For every width, with and without sign extension, and two settings of the data port with that
-- size and one address, of which the first client on the bus that contains it is a memory segment:
-- if the store with the one returns, then the load with the other returns, into a value below
-- 2 ^ 64 that is the stored one cut to the width, as integers in two's complement if the sign is
-- extended and as natural numbers if not; and it only adds to the count of bytes read.
pub get_data_out-data_clock_pulse :
    (w : Width) (sign : Bool) (i : ℕ) (m : Memory) (store load : DataMemory) (bus bus' : MemoryBus)
    → store.write_enable ≡ true
    → store.size ≡ size_of w
    → load.read_enable ≡ true
    → load.size ≡ size_of w
    → load.addr ≡ store.addr
    → find_client store.addr bus.clients ≡ some (i, memory m)
    → data_clock_pulse store bus ≡ returns tt bus'
    → (r : ℕ) × IsLoaded w sign store.data_in r
      × (get_data_out sign load bus'
          ≡ returns r (record bus' { bytes_read = u64 (bus'.bytes_read + size_of w) }))
get_data_out-data_clock_pulse w sign i m store load bus bus' writes stored reads sized same found
      done =
    let after : MemoryBus = record bus' { bytes_read = u64 (bus'.bytes_read + size_of w) } in
    let written : Bus.write w store.addr (cut w store.data_in) bus ≡ returns tt bus' =
      sym (store_lem w store bus writes stored) ∙ done in
    let read : Bus.read w load.addr bus' ≡ returns (store.data_in % 256 ^ size_of w) after =
      ap (λ a. Bus.read w a bus') same
      ∙ read-write w store.addr (cut w store.data_in) i m bus bus' found written
      ∙ ap (λ x. returns x after) (cut_lem w store.data_in) in
    (
      extended w sign (store.data_in % 256 ^ size_of w),
      extended-IsLoaded w sign store.data_in,
      load_lem w sign load (store.data_in % 256 ^ size_of w) bus' after reads sized read,
    )
