-- ===== src/Snapshot.antt =====
-- The snapshot file: core/src/snapshot.rs.
pub mod Bytes
pub mod Record
pub mod Replay
pub mod Writer
pub mod Read
pub mod RoundTrip
pub mod Files
pub mod Nodes
pub mod Compaction
pub mod Mirror
pub mod Stream
pub mod Run
