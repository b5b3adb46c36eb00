-- ===== src/Cli.antt =====
-- The command line, crates/cli.
pub mod Ingest
pub mod Account
pub mod Succeeds
pub mod Watch
pub mod IngestCommand
pub mod Summary
pub mod Watched
pub mod Rounds
pub mod Delivery
pub mod Stops
pub mod Stats
pub mod Grouping
pub mod Render
pub mod Colour
pub mod Output
pub mod QueryCommand
pub mod Cutoff
pub mod Duration
pub mod Agree
pub mod Prune
pub mod Outcome
pub mod Batching
