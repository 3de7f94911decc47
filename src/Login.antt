-- ===== src/Login.antt =====
-- Sign-in with a password, internal/domain/auth/handler.go and 2fa.go.
pub mod Handler
pub mod Sound
pub mod Recovery
pub mod Probe
pub mod SecretBox
