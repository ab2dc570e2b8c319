-- ===== src/Inbox.antt =====
-- The durable inbox of webhook deliveries and the outbox of leased projections
-- (internal/githubinbox). A transaction works on the tables and keeps them only if it commits.
pub mod Tables
pub mod Accept
pub mod Lease
pub mod History
mod Tests
