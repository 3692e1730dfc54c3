-- ===== src/Api.antt =====
-- The package internal/api: the HTTP server over the chunk store, the chunker and the DHT node.
pub mod State
pub mod Fetch
pub mod Chunks
pub mod Files
pub mod Steps
pub mod Limits
pub mod Events
pub mod Startup
pub mod Requests
