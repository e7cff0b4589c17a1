-- ===== src/LocalProvider/Laws.antt =====
-- What the handlers of internal/localprovider promise.
pub mod Conduct
pub mod Handlers
pub mod Cases
pub mod Replay
pub mod Repeat
pub mod Persistence
pub mod Resources
pub mod Concurrency
