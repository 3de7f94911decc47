-- ===== src/Views.antt =====
-- Budgets of multi-view secrets, internal/domain/secretviews.
pub mod Store
pub mod Budget
pub mod Limit
