-- ===== src/Broker.antt =====
-- The credential broker (internal/githubbroker).
pub mod Frame
pub mod Exchange
