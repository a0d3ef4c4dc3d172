-- ===== src/Nfs.antt =====
-- The NFS front end, as far as it is the program's own: src/nfs and include/rail/nfs.
pub mod Xdr
pub mod Rpc
