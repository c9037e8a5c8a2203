-- ===== src/Ingestion.antt =====
-- Ingestion of a project's files: internal/projectingestion.
pub mod Chunks
pub mod Paths
pub mod Safety
pub mod Scanner
pub mod Reader
mod Tests
