-- ===== src/Mirror.antt =====
-- The package internal/mirror: where a path lies in the mirrored trees.
pub mod Resolve
