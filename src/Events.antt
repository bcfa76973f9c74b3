-- ===== src/Events.antt =====
-- User events: `handle_user_event` of core/src/serf/base.rs, and what its buffer of recent events
-- does and does not keep from being delivered twice.
pub mod Handler
pub mod Slots
pub mod Once
