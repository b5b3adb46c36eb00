-- ===== src/Api.antt =====
-- The HTTP server, crates/api.
pub mod AppError
pub mod State
pub mod Handlers
pub mod Origin
pub mod Alike
pub mod Fault
pub mod Cors
pub mod Pieces
pub mod Policy
pub mod Mirror
pub mod Start
pub mod Main
pub mod Serving
