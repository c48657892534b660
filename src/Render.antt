-- ===== src/Render.antt =====
-- The package internal/render: the tree editor, the form, the sub-editors of collections and the picker.
pub mod Form
pub mod Literal
pub mod EditorTree
pub mod EditorScroll
pub mod Editor
pub mod EditorUpdate
pub mod FormModel
pub mod Collection
pub mod Picker
