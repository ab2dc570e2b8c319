-- ===== src/Review.antt =====
-- The comparison and the policy together: what it takes for the behavior of a pull request to pass
-- (internal/compare/comparator.go `compareDocument`, then internal/policy/evaluator.go).
pub mod Coverage
mod Tests
