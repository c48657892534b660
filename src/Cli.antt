-- ===== src/Cli.antt =====
-- internal/cli: the commands that act on what the engines decide.
pub mod GuardTick
pub mod SyncPrune
