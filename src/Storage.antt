-- ===== src/Storage.antt =====
-- The package internal/storage: the chunker and the chunk store.
pub mod Chunker
pub mod Disk
pub mod Store
