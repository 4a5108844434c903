-- ===== src/Net.antt =====
-- The HTTP client's own parsing: src/net.
pub mod Chunked
pub mod Response
pub mod Url
mod Tests
