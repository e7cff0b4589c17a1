-- ===== src/LocalProvider.antt =====
-- internal/localprovider: the PostgreSQL-backed provider for local testing.
pub mod State
pub mod Mutation
pub mod Entities
pub mod Identity
pub mod Workflow
pub mod Routes
pub mod Storage
pub mod Laws
mod Tests
