-- ===== src/Release.antt =====
-- internal/release: the verification of the release-acceptance record.
pub mod Acceptance
pub mod Gates
pub mod Verified
mod Tests
