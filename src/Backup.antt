-- ===== src/Backup.antt =====
-- internal/backup: the wiki's files in a git repository.
pub mod EntryName
