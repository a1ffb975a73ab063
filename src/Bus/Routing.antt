-- ===== src/Bus/Routing.antt =====
-- src/memory-bus.cc: the client that an access reaches, before and after a write.
use ca.Base.{
  ℕ, zero, suc, ◌+◌, ◌%◌, ◌^◌, ◌≡◌, arith, true, some, ap, ◌∙◌, List, [], ◌∷◌, set, ok, returns,
  u64,
}
use ca.Memory
use ca.Memory.{Memory, Width, size_of, byte, half_word, word, double_word}
use ca.Memory.Access.{read_data-write_data}
use ca.Serial
use ca.SysStatus
use ca.Output.{Output}
use ca.Bus.{
  Client, memory, serial, sys_status, MemoryBus, client_contains, client_read, client_write,
  find_client, read, write,
}

-- A write keeps the range of the client.
client_write-contains :
    (w : Width) (addr v : ℕ) (c c' : Client) (out : List Output) (a : ℕ)
    → client_write w addr v c ≡ ok (c', out)
    → client_contains a c' ≡ client_contains a c
unfolding client_write client_contains Memory.write_data Memory.contains Serial.write
    SysStatus.write Serial.contains SysStatus.contains
client_write-contains w addr v (memory m) c' out a e = ground arith
client_write-contains byte addr v (serial s) c' out a e = ground arith
client_write-contains _ addr v (serial s) c' out a e = ground arith
client_write-contains byte addr v (sys_status s) c' out a e = ground arith
client_write-contains _ addr v (sys_status s) c' out a e = ground arith

-- Replacing the client that was found by one with the address still in its range.
find_client-set :
    (addr : ℕ) (cs : List Client) (i : ℕ) (c c' : Client)
    → find_client addr cs ≡ some (i, c)
    → client_contains addr c' ≡ true
    → find_client addr (set cs i c') ≡ some (i, c')
unfolding find_client
find_client-set addr [] i c c' e h = cc
find_client-set addr (d ∷ cs) zero c c' e h = rw h
find_client-set addr (d ∷ cs) (suc i) c c' e h = ground (arith, find_client-set addr cs i c c')

find_client-contains :
    (addr : ℕ) (cs : List Client) (i : ℕ) (c : Client)
    → find_client addr cs ≡ some (i, c)
    → client_contains addr c ≡ true
unfolding find_client
find_client-contains addr [] i c e = cc
find_client-contains addr (d ∷ cs) zero c e = ground arith
find_client-contains addr (d ∷ cs) (suc i) c e = ground (arith, find_client-contains addr cs i c)

write_inv :
    (w : Width) (addr v i : ℕ) (m : Memory) (bus bus' : MemoryBus)
    → find_client addr bus.clients ≡ some (i, memory m)
    → write w addr v bus ≡ returns tt bus'
    → (m' : Memory) × (Memory.write_data w addr v m ≡ ok m')
      × (client_write w addr v (memory m) ≡ ok (memory m', []))
      × (bus'.clients ≡ set bus.clients i (memory m'))
unfolding write client_write
write_inv w addr v i m bus bus' f e = ground arith

-- If the first client of the bus that contains an address is a memory segment and a write through
-- the bus at that address returns, then a read of the same width and address through the bus
-- afterwards returns the value cut to that width, and adds the width to the count of bytes read.
pub read-write :
    (w : Width) (addr v i : ℕ) (m : Memory) (bus bus' : MemoryBus)
    → find_client addr bus.clients ≡ some (i, memory m)
    → write w addr v bus ≡ returns tt bus'
    → read w addr bus'
      ≡ returns
          (v % 256 ^ size_of w)
          (record bus' { bytes_read = u64 (bus'.bytes_read + size_of w) })
unfolding read client_read
read-write w addr v i m bus bus' f e =
    let (m', written, same, clients) = write_inv w addr v i m bus bus' f e in
    let kept : client_contains addr (memory m') ≡ true =
      client_write-contains w addr v (memory m) (memory m') [] addr same
      ∙ find_client-contains addr bus.clients i (memory m) f in
    let found : find_client addr bus'.clients ≡ some (i, memory m') =
      ap (find_client addr) clients
      ∙ find_client-set addr bus.clients i (memory m) (memory m') f kept in
    ground (arith, read_data-write_data m m' w addr v written)
