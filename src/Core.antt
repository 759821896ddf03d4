-- ===== src/Core.antt =====
-- Package internal/core.
pub mod Paths
pub mod Repo
pub mod Cron
