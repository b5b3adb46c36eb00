-- ===== src/Follow.antt =====
-- crates/core/src/follow.rs: tailing a growing file. What the operating system answers during a call is
-- an argument of the call; `from_utf8_lossy` of the standard library is a parameter.
pub mod Lines
pub mod Tailer
pub mod Chunks
pub mod Handle
pub mod Answers
