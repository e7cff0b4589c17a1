-- ===== src/Provider.antt =====
-- internal/provider: the client of a Jimu provider.
pub mod Types
pub mod Text
pub mod Validate
pub mod Client
pub mod Metadata
pub mod Resources
pub mod Origin
pub mod Returned
pub mod Sample
mod Tests
