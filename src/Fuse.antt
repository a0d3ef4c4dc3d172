-- ===== src/Fuse.antt =====
-- What a FUSE mount keeps of the tree it serves: src/fuse and include/rail/fuse.
pub mod Inodes
