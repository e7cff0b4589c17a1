-- ===== src/Auth.antt =====
-- internal/auth: the broker of volatile OIDC state, sessions and drafts.
pub mod Types
pub mod Teardown
pub mod Compare
pub mod Begin
pub mod Complete
pub mod Session
pub mod Drafts
pub mod Setup
pub mod Cases
pub mod Invariant
pub mod Bounds
pub mod Runs
pub mod Compared
pub mod SingleUse
pub mod Disposal
pub mod Shown
pub mod DraftLaws
pub mod RoleLaws
pub mod Admitted
pub mod Login
mod Tests
