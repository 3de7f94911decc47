-- ===== src/Users.antt =====
-- The users domain, internal/domain/users.
pub mod Store
pub mod Fields
pub mod Handler
pub mod Laws
pub mod Lockout
pub mod Manned
pub mod Requests
