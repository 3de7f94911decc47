-- ===== src/Server.antt =====
-- The HTTP edge, internal/server.
pub mod World
pub mod Middleware
pub mod Multiview
pub mod Routes
pub mod Access
pub mod Admin
pub mod SignedIn
pub mod Limits
pub mod Exposure
pub mod Budgeted
pub mod Privacy
pub mod FileRoutes
pub mod Sweepers
pub mod Orphans
