-- ===== src/App.antt =====
-- The decisions of the GitHub app (internal/githubapp).
pub mod States
pub mod Target
pub mod Generation
mod Tests
