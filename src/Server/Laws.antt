-- ===== src/Server/Laws.antt =====
-- What the web server of internal/server guarantees.
pub mod Searched
pub mod Cases
pub mod Sessions
pub mod Guarded
pub mod Kept
pub mod Handlers
pub mod Planned
pub mod Administered
pub mod Operated
pub mod History
pub mod Reviewed
pub mod Callback
pub mod Submitted
pub mod Retried
