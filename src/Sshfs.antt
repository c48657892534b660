-- ===== src/Sshfs.antt =====
-- internal/sshfs: the unattended mount guard.
pub mod Guard
