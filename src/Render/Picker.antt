-- ===== src/Render/Picker.antt =====
-- internal/render/select.go: the picker of rows, `Select`.
pub mod Filter
pub mod Facets
pub mod Model
pub mod Update
pub mod View
pub mod Soundness
pub mod Session
pub mod Marks
pub mod Window
pub mod Refresh
