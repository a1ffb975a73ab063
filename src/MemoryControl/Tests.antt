-- ===== src/MemoryControl/Tests.antt =====
-- A negative half word, stored and loaded with its sign.
use ca.Base.{ℕ, ◌^◌, ◌-◌, ◌≡◌, refl, true, false, some, returns, [], ◌∷◌, replicate}
use ca.Memory
use ca.Memory.{Memory, half_word}
use ca.Bus
use ca.Bus.{MemoryBus, memory, find_client}
use ca.MemoryControl.{DataMemory, get_data_out, data_clock_pulse}
use ca.MemoryControl.LoadStore.{IsLoaded, get_data_out-data_clock_pulse}

abbrev segment : Memory
segment = record {
  name = "data";
  may_write = true;
  base = 0x100;
  size = 16;
  align = 8;
  bytes = replicate 16 0;
}

abbrev data_bus : MemoryBus
data_bus = record { clients = memory segment ∷ []; bytes_read = 0; bytes_written = 0; cerr = [] }

abbrev stored_bus : MemoryBus
stored_bus = record {
  clients = memory (record segment { bytes = 0 ∷ 0 ∷ 0xfe ∷ 0xff ∷ replicate 12 0 }) ∷ [];
  bytes_read = 0;
  bytes_written = 2;
  cerr = [];
}

abbrev store_port : DataMemory
store_port = record {
  size = 2;
  addr = 0x102;
  data_in = 2 ^ 64 - 2;
  read_enable = false;
  write_enable = true;
}

abbrev load_port : DataMemory
load_port = record { size = 2; addr = 0x102; data_in = 0; read_enable = true; write_enable = false }

data_found : find_client 0x102 data_bus.clients ≡ some (0, memory segment)
unfolding find_client Bus.client_contains Memory.contains
data_found = refl

data_stored : data_clock_pulse store_port data_bus ≡ returns tt stored_bus
unfolding data_clock_pulse Bus.write Bus.client_write find_client Bus.client_contains
    Memory.contains Memory.write_data Memory.can_access Memory.Bytes.store
data_stored = refl

get_data_out-data_clock_pulse_example :
    (r : ℕ) × IsLoaded half_word true (2 ^ 64 - 2) r
    × (get_data_out true load_port stored_bus ≡ returns r (record stored_bus { bytes_read = 2 }))
get_data_out-data_clock_pulse_example =
    get_data_out-data_clock_pulse half_word true 0 segment store_port load_port data_bus stored_bus
      refl refl refl refl refl data_found data_stored
