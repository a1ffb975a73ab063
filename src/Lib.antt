-- ===== src/Lib.antt =====
-- rv64-emu: an emulator of a 64-bit RISC-V processor with a five-stage pipeline.
--
-- The program reads its command line, loads an ELF file into memory segments, puts them on a bus
-- with two devices, and runs a main loop: each cycle lets the stages of the pipeline compute
-- (`propagate`) and then store their results (`clockPulse`). Pipelined, all five stages work in
-- each cycle, with forwarding, stalls after loads and flushes after taken branches; otherwise one
-- stage works in each cycle.
--
-- Which file models what:
--   Base           numbers, bits, integers and lists; exceptions, results and actions (Base/Effects);
--                  text, std::regex_match on the patterns that occur, numbers as text (Base/Decimal)
--   Decoder        src/inst-decoder.h, src/inst-decoder.cc
--   Alu            src/alu.h, src/alu.cc
--   RegFile        src/reg-file.h, src/arch.h
--   Memory         src/memory.h, src/memory.cc; Width is the four access sizes of
--                  src/memory-interface.h
--   Output         what the devices print to std::cerr
--   Serial         src/serial.h, src/serial.cc
--   SysStatus      src/sys-status.h, src/sys-status.cc
--   Bus            src/memory-bus.h, src/memory-bus.cc; Client is the classes that implement
--                  MemoryInterface
--   MemoryControl  src/memory-control.h, src/memory-control.cc
--   Control        the class ControlSignals of src/stages.h and src/stages.cc
--   Stages         src/stages.h and src/stages.cc; Fetch, Decode, Execute, Access and WriteBack are
--                  the five stage classes
--   Pipeline       src/pipeline.h, src/pipeline.cc
--   Processor      src/processor.h, src/processor.cc
--   ConfigFile     src/config-file.h, src/config-file.cc
--   Testing        src/testing.h, src/testing.cc
--   InstFormatter  src/inst-formatter.cc
--   ElfFile        src/elf-file.h, src/elf-file.cc and the 64-bit structures of src/elf.h
--   Mux            src/mux.h
--   Framebuffer    src/framebuffer.h, src/framebuffer.cc
--   Main           src/main.cc: Launcher, Disassembly and Options; ExitCodes is of src/testing.h
-- The other children state and prove laws of their parents: Decoder.Encoding and Decoder.Formats have
-- the instruction formats, Alu.Reference the operations of the RISC-V manual, and Pipeline.Instruction
-- the execution of an instruction as a whole, as an action on the bus. Of a whole program,
-- Pipeline.Text has the instructions in memory, Pipeline.Completes its run as a sequence of such
-- instructions, and Pipeline.Ends the cycles up to its end. Pipeline.OneByOne is about the mode without
-- pipelining and Pipeline.Overlapped about the pipelined one: Overlapped.Represents says which state
-- between two instructions a state of the pipeline stands for. Processor.Programs joins them with the
-- main loop. Pipeline.Forwarding is about the values that instructions take from those ahead, and
-- Pipeline.Hazards and Pipeline.Transfers about the cycles that hold back and that discard
-- instructions.
--
-- A function keeps the name of the method it models, in snake_case, and takes the object as its last
-- argument. The stages refer to shared registers, control lines, the PC, the register file and the
-- bus; all of these are fields of one record, Stages.Pipeline, and a stage method is an action on
-- it. An action returns or throws with the state it leaves, or is undefined: exceptions keep the
-- writes done before them, and `undefined` stands for undefined behaviour of C++, that is, signed
-- overflow and accesses past an array. 64-bit, 32-bit and 8-bit values are natural numbers reduced
-- by a power of two where the source's arithmetic wraps. Signed values are integers.
--
-- Processor.run takes a number of cycles, since a program may run forever; it is run out of fuel, as
-- a value of its own, only where the program has run for that many cycles and not ended. For a program
-- of n instructions up to its end marker, 5 n + 6 cycles are enough in both modes.
--
-- Taken for granted: the host stores multi-byte values least significant byte first, debugMode is
-- off, and the framebuffer is not on the processor's bus, as in the default build. The text of
-- exceptions is kept as their arguments.
--
-- The patterns of std::regex are data (Base.Regex), matched by backtracking in the order of ECMAScript.
-- Files are their bytes: what the system gives when one is opened is an argument, and so are the
-- allocator and what getopt makes of the command line (Main.System, Main.Options). Reads outside a
-- file are undefined. The framebuffer's allocator may fail, which the source does not check: its null
-- pointer is the empty list (Framebuffer.calloc).
--
-- Not modelled: what is printed for the user, that is, messages, registers and statistics; what SDL
-- does with the texture, and the framebuffer's destructor, which waits for the user.
pub mod Base
pub mod Decoder
pub mod Alu
pub mod RegFile
pub mod Memory
pub mod Output
pub mod Serial
pub mod SysStatus
pub mod Bus
pub mod MemoryControl
pub mod Control
pub mod Stages
pub mod Pipeline
pub mod Processor
pub mod ConfigFile
pub mod Testing
pub mod InstFormatter
pub mod ElfFile
pub mod Mux
pub mod Main
pub mod Framebuffer
