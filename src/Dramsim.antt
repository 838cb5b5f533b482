-- ===== src/Dramsim.antt =====
-- csrc/mm_dramsim2.h and csrc/mm_dramsim2.cc: a memory behind an AXI port whose answers come when
-- a simulator of memory timing says so.
pub mod Queues
pub mod Tick
pub mod Order
pub mod Fifo
pub mod Kept
pub mod Bursts
pub mod Steps
pub mod Answers
mod Tests
