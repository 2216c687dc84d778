-- ===== src/Superopt.antt =====
-- The superoptimizer (bcm2835/240-superopt): its physical page allocator.
pub mod Ppa
pub mod Alloc
pub mod Again
pub mod Free
pub mod Init
pub mod Refine
mod Tests
