-- ===== src/Pup.antt =====
-- The uploader PUP: checksums, framing, the protocol's two sides and the device's loader (pup/).
pub mod Serial
pub mod Fcs
pub mod Crc
pub mod Port
pub mod Wire
pub mod Recv
pub mod Image
pub mod Config
pub mod Options
pub mod Download
pub mod Upload
pub mod Elf
mod Tests
