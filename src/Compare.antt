-- ===== src/Compare.antt =====
-- The comparison of the traces of base and head (internal/compare).
pub mod Facts
pub mod Occurrence
pub mod Variants
pub mod Records
pub mod Order
pub mod Match
pub mod Validate
pub mod Document
