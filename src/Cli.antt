-- ===== src/Cli.antt =====
-- The commands, internal/cli.
pub mod Prompt
pub mod Users
pub mod Bootstrap
pub mod Admins
pub mod Writes
pub mod Keyed
pub mod Commands
pub mod Created
