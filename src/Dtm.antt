-- ===== src/Dtm.antt =====
-- csrc/testchip_dtm.h, csrc/testchip_dtm.cc and csrc/TestchipSimDTM.cc: architectural state is
-- put into the harts through the debug module.
pub mod Encoding
pub mod State
pub mod Restore
pub mod Parse
pub mod Reset
pub mod Port
pub mod Hart
pub mod Decoded
pub mod Effects
pub mod Sequence
pub mod Calls
pub mod Lengths
pub mod Layout
pub mod Parsed
pub mod States
pub mod Written
pub mod Restored
pub mod Loaded
pub mod Samples
mod Tests
