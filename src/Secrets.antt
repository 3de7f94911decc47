-- ===== src/Secrets.antt =====
-- The secrets domain, internal/domain/secrets.
pub mod Store
pub mod Burn
pub mod Sweep
pub mod Once
pub mod Handler
pub mod Lifecycle
pub mod Created
