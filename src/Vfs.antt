-- ===== src/Vfs.antt =====
-- What the FUSE and NFS front ends share: include/rail/vfs.
pub mod Gate
