-- ===== src/Indexer.antt =====
-- The index of crates/core/src/indexer.rs.
pub mod Table
pub mod Batch
pub mod Chunks
pub mod Ends
pub mod Counts
pub mod Unique
pub mod Again
pub mod Prune
pub mod Reliable
pub mod Origin
pub mod Stats
pub mod Open
pub mod Sequential
pub mod HashSet
pub mod Prefix
