-- ===== src/Pipeline/Overlapped.antt =====
-- src/pipeline.cc with pipelining: all five stages work in each cycle, on up to five instructions,
-- against the execution of the instructions one after the other.
pub mod FetchCycle
pub mod Cycle
pub mod Whole
pub mod After
pub mod Operands
pub mod Represents
pub mod Fetched
pub mod Steps
pub mod Bubbles
pub mod Executes
pub mod Advance
pub mod Ending
pub mod Drain
pub mod Fills
pub mod Program
pub mod CutShort
