-- ===== src/Functions.antt =====
-- runtimes/ts/pkg/functions.ts, a module for each concern.
pub mod Repo
pub mod Files
pub mod Modules
