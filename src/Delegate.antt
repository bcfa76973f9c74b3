-- ===== src/Delegate.antt =====
-- What memberlist calls: core/src/serf/delegate.rs.
pub mod Notify
pub mod Merge
pub mod Kept
pub mod Safe
pub mod Messages
