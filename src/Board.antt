-- ===== src/Board.antt =====
-- The drivers of the board's own peripherals (bcm2835/*.c) that compute something.
pub mod Systmr
pub mod Gpio
pub mod Mmu
pub mod Ptags
mod Tests
