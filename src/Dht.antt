-- ===== src/Dht.antt =====
-- The package internal/dht: the distributed hash table.
pub mod Types
pub mod Distance
pub mod Routing
pub mod Closest
pub mod Providers
pub mod Json
pub mod Rpc
pub mod Remote
pub mod FindNode
pub mod Start
