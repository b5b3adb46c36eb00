-- ===== src/Executor.antt =====
-- crates/core/src/executor.rs: the translation of a query into SQL with bound parameters. SQLite and
-- chrono are not in the repository: chrono is a parameter, and the SQL is a text.
pub mod Chrono
pub mod Failure
pub mod Sql
pub mod Translate
pub mod Atoms
pub mod Formula
pub mod Meaning
pub mod Shape
pub mod Like
pub mod Run
pub mod Stored
