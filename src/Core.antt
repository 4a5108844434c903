-- ===== src/Core.antt =====
-- The lock-free and low-level data structures of src/core.
pub mod Spsc
pub mod Histogram
pub mod Hash
pub mod Flat
pub mod Seqlock
pub mod Mpsc
