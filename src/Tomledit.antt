-- ===== src/Tomledit.antt =====
-- The package internal/tomledit: a TOML file edited by line.
pub mod Line
pub mod Doc
pub mod Edit
pub mod Seams
