-- ===== src/Query.antt =====
-- crates/core/src/query.rs: the query language.
pub mod Ast
pub mod Token
pub mod Tokenizer
pub mod Parser
pub mod Grammar
pub mod Sound
pub mod Text
pub mod Complete
pub mod WellFormed
