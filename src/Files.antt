-- ===== src/Files.antt =====
-- The files domain, internal/domain/files and internal/models/file.
pub mod Store
pub mod Laws
pub mod Sweep
pub mod Handler
pub mod Lifecycle
