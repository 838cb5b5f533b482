-- ===== src/Cospike.antt =====
-- csrc/cospike_impl.cc and csrc/cospike.cc: each instruction that the target commits is run by a
-- reference simulator too, and what they write is compared.
pub mod Core
pub mod Interrupt
pub mod Writes
pub mod Loadarch
pub mod Cosim
pub mod Agree
pub mod Alike
pub mod Pending
pub mod Configure
pub mod Sysinfo
pub mod Arguments
mod AlikeTests
mod Tests
