-- ===== src/Examples.antt =====
-- The theorems at concrete inputs, for each part of lne/.
pub mod Lists
pub mod Blocks
pub mod Tasks
pub mod Sockets
pub mod Connections
pub mod Leaving
pub mod Times
pub mod Addresses
pub mod Springs
pub mod Calls
pub mod Pools
pub mod Locks
pub mod Flushing
pub mod Receiving
pub mod Life
