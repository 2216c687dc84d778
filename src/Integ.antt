-- ===== src/Integ.antt =====
-- The integration lab (bcm2835/240-integ): the hash of a memory region.
pub mod Hash
mod Tests
