-- ===== src/Fs.antt =====
-- Files as a transfer reads them: src/fs.
pub mod Reader
