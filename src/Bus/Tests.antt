-- ===== src/Bus/Tests.antt =====
-- A bus with a serial port and a segment of sixteen bytes.
use ca.Base.{◌≡◌, refl, true, some, returns, [], ◌∷◌, replicate}
use ca.Memory
use ca.Memory.{Memory, half_word}
use ca.Serial
use ca.Bus.{memory, serial, MemoryBus, find_client, read, write, client_contains, client_write}
use ca.Bus.Routing.{read-write}

abbrev segment : Memory
segment = record {
  name = "data";
  may_write = true;
  base = 0x100;
  size = 16;
  align = 8;
  bytes = replicate 16 0;
}

abbrev two_clients : MemoryBus
two_clients = record {
  clients = serial (record { base = 0x200 }) ∷ memory segment ∷ [];
  bytes_read = 0;
  bytes_written = 0;
  cerr = [];
}

-- The bus after the half word 0x51234 has been stored at 0x108.
abbrev stored_clients : MemoryBus
stored_clients = record {
  clients =
      serial (record { base = 0x200 })
      ∷ memory (record segment {
        bytes = 0 ∷ 0 ∷ 0 ∷ 0 ∷ 0 ∷ 0 ∷ 0 ∷ 0 ∷ 0x34 ∷ 0x12 ∷ 0 ∷ 0 ∷ 0 ∷ 0 ∷ 0 ∷ 0 ∷ [];
      })
      ∷ [];
  bytes_read = 0;
  bytes_written = 2;
  cerr = [];
}

segment_found : find_client 0x108 two_clients.clients ≡ some (1, memory segment)
unfolding find_client client_contains Serial.contains Memory.contains
segment_found = refl

clients_stored : write half_word 0x108 0x5_1234 two_clients ≡ returns tt stored_clients
unfolding write client_write find_client client_contains Serial.contains Memory.contains
    Memory.write_data Memory.can_access Memory.Bytes.store
clients_stored = refl

read-write_example :
    read half_word 0x108 stored_clients ≡ returns 0x1234 (record stored_clients { bytes_read = 2 })
read-write_example =
    read-write half_word 0x108 0x5_1234 1 segment two_clients stored_clients segment_found
      clients_stored
