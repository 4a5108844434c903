-- ===== src/Engine.antt =====
-- src/engine: the part of the engine that needs no thread.
pub mod Double
pub mod Signal
pub mod Paper
pub mod Watches
