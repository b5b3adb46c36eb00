-- ===== src/Parsers.antt =====
-- The line parsers of crates/core/src/parsers.
pub mod Blank
pub mod Logfmt
pub mod Json
pub mod Format
