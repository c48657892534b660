-- ===== src/Examples.antt =====
-- Runs of the definitions on concrete inputs, and each conditional theorem at an input that meets its
-- conditions.
mod Guard
mod GuardTick
mod Watch
mod Editor
mod Form
mod Collection
mod Picker
mod SyncPrune
mod Mirror
mod Queue
mod Listing
mod Tomledit
