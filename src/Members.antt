-- ===== src/Members.antt =====
-- Membership: the handlers of core/src/serf/base.rs that change `Members`, the reaper, and what they
-- keep.
pub mod Base
pub mod Join
pub mod Leave
pub mod Update
pub mod Invariant
pub mod Moves
pub mod Kept
pub mod Reap
pub mod Tally
pub mod Reaped
pub mod Reaping
pub mod Bounds
pub mod History
pub mod Gossip
pub mod Rebroadcast
