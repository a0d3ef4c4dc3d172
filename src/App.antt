-- ===== src/App.antt =====
-- What a transfer is made of, apart from any socket: src/app and include/rail/app.
pub mod Checksum
pub mod Signature
pub mod Differ
pub mod Filter
