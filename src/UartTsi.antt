-- ===== src/UartTsi.antt =====
-- uart_tsi_src/testchip_uart_tsi.cc: TSI words over a serial line.
pub mod Options
pub mod Terminal
pub mod Connected
pub mod Link
pub mod Session
pub mod Loader
mod Tests
mod CommandLine
