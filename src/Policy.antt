-- ===== src/Policy.antt =====
-- The built-in policy: findings from a behavioral delta, and the waivers of the trusted base applied
-- to them (internal/policy).
pub mod Confidence
pub mod Rules
pub mod Evaluate
pub mod Waivers
pub mod Governance
pub mod Application
mod Tests
