-- ===== src/Server.antt =====
-- internal/server: the web server of the Studio, over the broker and the provider's client.
pub mod Types
pub mod Roles
pub mod Guards
pub mod Login
pub mod Metadata
pub mod Deletion
pub mod Migration
pub mod Identity
pub mod Workflows
pub mod Quota
pub mod Routes
pub mod Laws
mod Tests
