-- ===== src/Output.antt =====
-- What the devices print to `std::cerr`.
use ca.Base.{ℕ}

pub data Output : Type 0 where
  character : ℕ → Output
  system_halt_requested : Output
