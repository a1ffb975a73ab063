-- ===== src/Bus.antt =====
-- src/memory-bus.h and src/memory-bus.cc, with the interface of src/memory-interface.h as a data
-- type of its implementations. `std::cerr` is kept beside the bus, as the list of what the clients
-- printed to it. A pointer to a client is its index among the clients.
pub mod Routing
mod Tests
use ca.Base.{
  ℕ, suc, ◌+◌, Result, Outcome, Action, lift, and_then, bind, ok, throws, returns,
  illegal_access_at, Option, none, some, Bool, if◌then◌else◌, List, [], ◌∷◌, ◌++◌, set, u64,
}
use ca.Memory
use ca.Memory.{Memory, Width, size_of}
use ca.Serial
use ca.Serial.{Serial}
use ca.SysStatus
use ca.SysStatus.{SysStatus}
use ca.Output.{Output}

pub data Client : Type 0 where
  memory : Memory → Client
  serial : Serial → Client
  sys_status : SysStatus → Client

-- The virtual methods, by the class of the client.
unfoldable pub client_contains : ℕ → Client → Bool
client_contains addr (memory m) = Memory.contains addr m
client_contains addr (serial s) = Serial.contains addr s
client_contains addr (sys_status s) = SysStatus.contains addr s

unfoldable pub client_read : Width → ℕ → Client → Result ℕ
client_read w addr (memory m) = Memory.read_data w addr m
client_read w addr (serial s) = Serial.read w addr s
client_read w addr (sys_status s) = SysStatus.read w addr s

unfoldable pub client_write : Width → ℕ → ℕ → Client → Result (Client × List Output)
client_write w addr value (memory m) =
    bind (Memory.write_data w addr value m) (λ m'. ok (memory m', []))
client_write w addr value (serial s) =
    bind (Serial.write w addr value s) (λ r. ok (serial r.0, r.1))
client_write w addr value (sys_status s) =
    bind (SysStatus.write w addr value s) (λ r. ok (sys_status r.0, r.1))

pub record MemoryBus : Type 0 where
  pub clients : List Client
  pub bytes_read : ℕ
  pub bytes_written : ℕ
  pub cerr : List Output

unfoldable pub add_client : Client → MemoryBus → MemoryBus
add_client c bus = record bus { clients = bus.clients ++ c ∷ [] }

-- The first client that contains the address, with its index.
unfoldable pub find_client : ℕ → List Client → Option (ℕ × Client)
find_client addr [] = none
find_client addr (c ∷ cs) =
    if client_contains addr c
    then some (0, c)
    else elim (find_client addr cs) [ none ↦ none | some (i, d) ↦ some (suc i, d) ]

-- A client's method throws with the bus as it is, with the bytes counted.
unfoldable pub read : Width → ℕ → Action MemoryBus ℕ
read w addr bus =
    let counted = record bus { bytes_read = u64 (bus.bytes_read + size_of w) } in
    elim (find_client addr bus.clients) [
      | none ↦ throws (illegal_access_at addr) counted
      | some (i, c) ↦ lift (client_read w addr c) counted
    ]

unfoldable pub write : Width → ℕ → ℕ → Action MemoryBus (Unit {0})
write w addr value bus =
    let counted = record bus { bytes_written = u64 (bus.bytes_written + size_of w) } in
    elim (find_client addr bus.clients) [
      | none ↦ throws (illegal_access_at addr) counted
      | some (i, c) ↦
          and_then (lift (client_write w addr value c) counted)
            λ r b. returns tt (record b { clients = set b.clients i r.0; cerr = b.cerr ++ r.1 })
    ]

-- `clockPulse` does nothing for these clients.
unfoldable pub clock_pulse : MemoryBus → MemoryBus
clock_pulse bus = bus
