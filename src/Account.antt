-- ===== src/Account.antt =====
-- The endpoints by which a signed-in user manages its own account, internal/domain/auth/account.go
-- and internal/domain/auth/2fa.go.
pub mod Self
pub mod TwoFactor
pub mod Credentials
pub mod Requests
pub mod Proven
pub mod Secured
pub mod Outcomes
pub mod Recovery
pub mod Refused
pub mod Gated
