-- ===== src/Visibility.antt =====
-- Which secrets and files are private, internal/domain/secretvis.
pub mod Store
pub mod Marks
