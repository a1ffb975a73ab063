-- ===== src/Processor/Halting.antt =====
-- src/processor.cc and src/sys-status.cc: a store to the system status device and the main loop.
use ca.Base.{
  ℕ, zero, suc, ◌+◌, ◌≡◌, refl, arith, Bool, true, some, List, [], ◌∷◌, set, get_elem?, ◌++◌,
  returns, u64, ◌⊎◌, ok,
}
use ca.Memory
use ca.Memory.{Width, byte, word}
use ca.SysStatus
use ca.SysStatus.{SysStatus}
use ca.Output.{Output, system_halt_requested}
use ca.Bus
use ca.Bus.{Client, sys_status, MemoryBus, find_client, client_contains, client_write}
use ca.Processor.{Processor, ended, run, should_halt}

-- The client that is found can be replaced at its index.
get_elem-find_client :
    (addr : ℕ) (cs : List Client) (i : ℕ) (c c' : Client)
    → find_client addr cs ≡ some (i, c)
    → get_elem? (set cs i c') i ≡ some c'
unfolding find_client
get_elem-find_client addr [] i c c' e = cc
get_elem-find_client addr (d ∷ cs) zero c c' e = refl
get_elem-find_client addr (d ∷ cs) (suc i) c c' e =
    ground (arith, get_elem-find_client addr cs i c c')

abbrev pub with_bus : MemoryBus → Processor → Processor
with_bus bus p = record p { pipeline = record (p.pipeline) { bus = bus } }

run_halted :
    (fuel : ℕ) (t : Bool) (p : Processor) → should_halt p ≡ true → run fuel t p ≡ ended true p
unfolding run
run_halted zero t p h = rw (run, h) refl
run_halted (suc fuel) t p h = rw (run, h) refl

write_found :
    (w : Width) (addr value i : ℕ) (c c' : Client) (out : List Output) (bus : MemoryBus)
    → find_client addr bus.clients ≡ some (i, c)
    → client_write w addr value c ≡ ok (c', out)
    → Bus.write w addr value bus
      ≡ returns tt (record bus {
        clients = set bus.clients i c';
        bytes_written = u64 (bus.bytes_written + Memory.size_of w);
        cerr = bus.cerr ++ out;
      })
unfolding Bus.write
write_found w addr value i c c' out bus e e' = ground arith

-- A client's write of a byte or a word at the halt address.
client_write-halts :
    (w : Width) (value : ℕ) (s : SysStatus)
    → (w ≡ byte) ⊎ (w ≡ word)
    → client_write w (u64 (s.base + 8)) value (sys_status s)
      ≡ ok (sys_status (record s { should_halt_flag = true }), system_halt_requested ∷ [])
unfolding client_write SysStatus.write
client_write-halts byte value s h = ground arith
client_write-halts word value s h = ground arith
client_write-halts _ value s h = ground arith

-- If the system status device is the first client of the bus that contains its halt address, and is
-- the one the processor watches, then writing any byte or word there through the bus returns, and
-- from then on the main loop ends at once with success, in both test modes and with any fuel.
pub halt_request-run :
    (w : Width) (value : ℕ) (p : Processor) (s : SysStatus)
    → (w ≡ byte) ⊎ (w ≡ word)
    → find_client (u64 (s.base + 8)) p.pipeline.bus.clients
      ≡ some (p.sys_status_client, sys_status s)
    → (bus : MemoryBus) × (Bus.write w (u64 (s.base + 8)) value p.pipeline.bus ≡ returns tt bus)
      × ((fuel : ℕ) (test_mode : Bool)
          → run fuel test_mode (with_bus bus p) ≡ ended true (with_bus bus p))
halt_request-run w value p s width found =
    let halted : Client = sys_status (record s { should_halt_flag = true }) in
    let bus : MemoryBus = record (p.pipeline.bus) {
      clients = set p.pipeline.bus.clients p.sys_status_client halted;
      bytes_written = u64 (p.pipeline.bus.bytes_written + Memory.size_of w);
      cerr = p.pipeline.bus.cerr ++ system_halt_requested ∷ [];
    } in
    (
      bus,
      write_found w _ value p.sys_status_client (sys_status s) halted _ p.pipeline.bus found
          (client_write-halts w value s width),
      λ fuel t. run_halted fuel t (with_bus bus p) (
          unfold should_halt SysStatus.should_halt in
          rw (get_elem-find_client _ _ _ (sys_status s) halted found) refl),
    )
