-- ===== src/Oidc.antt =====
-- Sign-in through an OpenID provider: internal/core/oidc/allow.go and internal/domain/auth/oidc.go.
pub mod Allow
pub mod Provision
pub mod Grants
pub mod State
pub mod Flow
pub mod Registry
pub mod Callback
