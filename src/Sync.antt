-- ===== src/Sync.antt =====
-- CORE/src/async: the lock that the processors share.
pub mod Lock
mod Tests
