-- ===== src/Broadcaster.antt =====
-- The price publisher, agents/broadcaster.
pub mod Staleness
pub mod Loop
