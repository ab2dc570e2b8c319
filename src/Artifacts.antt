-- ===== src/Artifacts.antt =====
-- The collection of artifacts (internal/artifactcollect).
pub mod Pattern
