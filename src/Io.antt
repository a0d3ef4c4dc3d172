-- ===== src/Io.antt =====
-- Byte streams: include/rail/io and src/io.
pub mod Stream
pub mod Turn
