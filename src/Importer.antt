-- ===== src/Importer.antt =====
-- internal/importer: the import of Markdown files.
pub mod Plan
pub mod StoredPlan
pub mod StateFile
pub mod PlanStore
