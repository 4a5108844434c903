-- ===== src/Util.antt =====
-- Helpers of src/util and src/core: dates and times.
pub mod Ascii
pub mod Time
