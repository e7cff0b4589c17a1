-- ===== src/Configuration.antt =====
-- internal/config: the Studio's tenants and OIDC registrations.
pub mod File
pub mod Endpoints
mod Tests
