-- ===== src/Tests.antt =====
-- Runs of the definitions on small inputs, and the theorems applied to them.
pub mod Fixtures
pub mod Secrets
pub mod Server
pub mod Users
pub mod Files
pub mod Oidc
pub mod Login
mod Account
mod Config
mod Cli
mod Flow
mod Passkey
