-- ===== src/Queries.antt =====
-- Queries: core/src/serf/query.rs, and `handle_query`, `handle_query_response` and
-- `register_query_response` of core/src/serf/base.rs.
pub mod Wire
pub mod Relay
pub mod Handler
pub mod Response
pub mod Shuffled
pub mod Slots
pub mod Once
pub mod Answers
pub mod Delivered
pub mod Respond
