-- ===== src/Migration.antt =====
-- The migration pipelines, common/migration.
pub mod State
pub mod Runner
