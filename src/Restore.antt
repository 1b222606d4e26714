-- ===== src/Restore.antt =====
-- internal/restore: the state of a restore, and the gate that keeps writes out while it runs.
pub mod Job
pub mod Gate
