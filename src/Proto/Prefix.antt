-- ===== src/Proto/Prefix.antt =====
pub mod Attrs
pub mod Transfer
pub mod Lookup
pub mod Bulk
pub mod Meta
pub mod Repeated
pub mod Whole
