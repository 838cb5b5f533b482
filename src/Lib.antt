-- ===== src/Lib.antt =====
-- The host tools that load and talk to a RISC-V target (testchip UART TSI and UIO HTIF), and the
-- host side of its simulated devices.
--
-- The parts and their files.
-- - Base: numbers, lists, machine words, text and memory. `Run` is how a piece of the program ends:
--   with a value, or stopped by an exit, an abort, an exception, undefined behaviour, or the lack
--   of a further event.
-- - Fesvr: the front-end server library of riscv-fesvr, which is not modelled. Its operations that
--   the serial tool calls are the record `Tsi`, and what they promise, two first-in first-out queues
--   of words, is `TsiLaws`. Other calls of the library (its loader, its reset, its main loop) are
--   arguments of the functions that make them.
-- - Htif: csrc/testchip_htif.h and .cc. `parse_htif_args` and `perform_init_accesses`. The two virtual
--   functions are the record `Bus`.
-- - Tsi: csrc/testchip_tsi.h and .cc. `flush_cache_lines`, `write_chunk` and `read_chunk` (here
--   `tsi_write_chunk` and `tsi_read_chunk`), `reset`, `load_program` and the constructor.
-- - Permissive: the loop over `argv` in both `main` functions.
-- - UartTsi.Options: the rest of the command line of uart_tsi_src/testchip_uart_tsi.cc, the speeds
--   that the constructor knows and `check_connection`.
-- - UartTsi.Terminal: the rest of the constructor, which opens the serial device and sets it up, and
--   `main` up to its first loop.
-- - UartTsi.Link: `handle_uart`, which empties the library's queue onto the line and hands over at
--   most one word. UartTsi.Session: the two loops of `main` around it.
-- - UartTsi.Loader: `write_chunk` and `load_program` of the same file, which record the chunks
--   loaded, refuse one that overlaps another, and read them back for the self check.
-- - Uio: uio_mmio_src/uio_htif.h, .cc and uio_mmio_main.cc: the options, the mapping, the translation
--   of addresses, the accesses and `main`.
-- - Mm: csrc/mm.h and mm.cc: the memory behind an AXI port, `mm_t` and `mm_magic_t`.
-- - Simuart: csrc/uart.h, uart.cc and SimUART.cc: the serial ports of the simulation.
--   Construct has the constructor of `uart_t`, with its calls of the system as a list of effects.
-- - Plusarg: csrc/plusarg_file_mem.h and .cc: a memory that is a mapped file.
-- - Dtm: csrc/testchip_dtm.h and .cc. Encoding has the instructions and the abstract commands of the
--   five `loadarch_restore_` functions, Restore their order in `reset`, Parse the file of architectural
--   state, and Reset the constructor, the chunk accesses, `load_program` and `reset`. Hart is an
--   independent description of a hart in debug mode, which the commands are run on, with as many data
--   registers and words of program buffer as it is given. Layout has the order of the file's lines.
--   Port has `debug_tick` of csrc/TestchipSimDTM.cc.
-- - Cospike: csrc/cospike_impl.cc and cospike.cc. Sysinfo has `cospike_set_sysinfo`; Loadarch,
--   Interrupt, Writes and Cosim have `cospike_cosim` on a simulator that has been set up, over the
--   record `Core` for what is called of it. Configure has the first call, which sets it up, over the
--   record `Spike` for the library.
-- - Dromajo: csrc/SimDromajoCosim.cc and dromajo_wrapper.cc, over the record `Dromajo` for the
--   simulator's library and `DromajoParams` for the texts that elaboration generates.
-- - Dramsim: csrc/mm_dramsim2.h and .cc, over the record `MemorySystem` for the timing simulator,
--   whose `update` gives the list of the calls back. It uses the accesses of Mm.
-- - Simdram: csrc/SimDRAM.cc: `memory_init` and the memories that channels share. Channel has
--   `memory_tick` over the record `MemoryObject` of the members of `mm_t`, which Mm and Dramsim fill.
-- - Simtsi: csrc/SimTSI.cc. It makes the objects of Tsi.
-- - Blkdev: csrc/blkdev.h, .cc and SimBlockDevice.cc: sector requests on a file.
--
-- Objects are records, passed on and returned. The serial line is a list of polls, one for each call
-- of `handle_uart`: how many bytes each `write` takes and what `read` gives. A program of the
-- library's loader is the list of its writes. `open` and `mmap` are an event, a file is its size
-- and its beats, and a memory is a function from addresses to bytes.
--
-- Words are natural numbers with the wrap-around written out (`add32`, `add64`, `sub64`, `% 2 ^ w`).
-- Fuel is used in four loops. `to_digits` is given the ten digits of an `int`. `remove_from` is given
-- a round for each argument and one more. `drain` has a fuel for the words to take, and the
-- theorems ask for more than the queue's length. `flush_from` is given more rounds than its range
-- can have lines to flush, which is enough wherever the range ends 64 bytes before the end of the
-- address space.
-- The loops over the line end with its events.
--
-- Not modelled: printing; the settings of the serial device on macOS; the bytes of a vector register
-- that no element of the file fills; threads, which are the explicit
-- steps `switch_to_host`, `switch_to_target` and `run_round`; the signal handlers of the UIO tool; the
-- libraries of the reference simulators and of the timing simulator, which are parameters; the
-- front-end server library, which is a copy of another project's.
pub mod Base
pub mod Fesvr
pub mod Htif
pub mod Tsi
pub mod Permissive
pub mod UartTsi
pub mod Blkdev
pub mod Uio
pub mod Mm
pub mod Simuart
pub mod Plusarg
pub mod Dtm
pub mod Cospike
pub mod Dramsim
pub mod Dromajo
pub mod Simtsi
pub mod Simdram
