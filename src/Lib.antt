-- ===== src/Lib.antt =====
-- A model of ruserf, a Rust port of the Serf gossip library for cluster membership, events and
-- queries, and theorems on it. Paths are those of the repository.
--
-- The parts and how they interact. memberlist tells the library through its delegate
-- (core/src/serf/delegate.rs) of nodes that join, leave or change, hands over messages from other
-- nodes, and exchanges whole states. The delegate dispatches to the handlers of
-- core/src/serf/base.rs, which run on the shared state of core/src/serf.rs: the member table with its
-- lists of failed and left members, the buffers of recent user events and queries, and three Lamport
-- clocks. The handlers emit events to a channel, which the snapshot (core/src/snapshot.rs) records in
-- a file, and ask for messages to be sent or rebroadcast. A background task reaps old members. On
-- their way to the user the events pass the coalescers (core/src/coalesce.rs), which hold back and
-- merge events for a time. The user calls the operations of core/src/serf/api.rs.
--
-- How it is modelled. `Serf` (Serf.antt) is the shared state as a record; a handler is a function
-- from a state to a state, with what it returns (whether to rebroadcast) beside it, and `none` where
-- the code panics. Locks leave no trace, as each handler holds its lock throughout. What is sent,
-- queued or emitted is appended to logs in the state. A u64 time is a native number, and additions
-- wrap at 2^64 as in a release build. Hash maps are association lists, whose order stands for the
-- iteration order, and hash sets are lists without repetition. Wall time and random numbers are
-- arguments.
--
-- Files.
--   Prelude: shared helpers: tests on numbers, lists, association lists, equality as an instance.
--   Types, Serf: the data of types/src and of core/src/types, core/src/event.rs, core/src/serf.rs.
--   Clock: types/src/clock.rs (`LamportClock`); Clock/Order its use by one node, Clock/Concurrent the
--     loop of `witness` with other threads in between.
--   Members: core/src/serf/base.rs: Members/Base the helpers (`upsert_intent`, `erase_node!`, ...),
--     Members/Join, Leave and Update the handlers `handle_node_*`, Members/Reap the `Reaper` and
--     Members/Bounds the counts of the `Reconnector` and the queue checker. Invariant, Moves and Kept
--     are about the agreement of the table with the lists, Tally, Reaped and Reaping about the loop of
--     the reaper, History about histories of calls, Gossip and Rebroadcast about intents.
--   Events: `handle_user_event` of core/src/serf/base.rs (Events/Handler), one step (Events/Slots) and
--     sequences of messages (Events/Once).
--   Queries: core/src/serf/query.rs and the query handlers of core/src/serf/base.rs: Queries/Wire
--     message type bytes and filters, Queries/Relay `random_members` and `relay_response`,
--     Queries/Handler `handle_query`, Queries/Response `QueryResponse`. Shuffled is about relays,
--     Slots and Once about the buffer, Answers and Delivered about the responses to a query.
--   Snapshot: core/src/snapshot.rs: Snapshot/Bytes integers in bytes, Snapshot/Record the records and
--     their encoding, Snapshot/Replay `open_and_replay_snapshot`, Snapshot/Writer `Snapshot` with its
--     appends and `compact`, Snapshot/Run the loop of `stream`. Read, RoundTrip and Files are about
--     reading back, Nodes, Compaction, Mirror and Stream about the file and the writer's state.
--   Delegate: core/src/serf/delegate.rs: Delegate/Notify `notify_message`, Delegate/Merge
--     `merge_remote_state`; Kept, Safe and Messages are about what they keep.
--   Coalesce: core/src/coalesce: Coalesce/User and Member the two coalescers, Coalesce/Loop one turn of
--     `coalesce_loop`, with the timers it polled and the arm that was taken as arguments. Newest,
--     Delivered, Changes, Reported and Instances are about flushes, Batches, Batched and Runs about
--     sequences of turns, Starved about the timers.
--   Api: core/src/serf/api.rs and `new_in`, `query_in` and `broadcast_join` of core/src/serf/base.rs:
--     Api/UserEvent, Join, Leave, Query and Start the operations, Broadcast what they share. Delivered,
--     Joined, Lifecycle, Registered and Restart are about them. What memberlist returns is an argument.
--   Wire: types/src: Wire the reading and writing of bytes, Wire/Messages and States the formats,
--     Wire/Dispatch `decode_message` and `encode_message`. Codes, Lists, Tables, RoundTrip and
--     StateTrip are about reading back, Short about slices that end too early.
--   Queries/Respond: `QueryContext::respond` of core/src/event.rs. Conflict: `handle_node_conflict` and
--     `resolve_node_conflict` of core/src/serf/base.rs and `handle_conflict` of
--     core/src/serf/internal_query.rs; Conflict/Vote is about the vote.
--   Tests: the theorems at concrete inputs.
--
-- Bounds and fuel. The loop of a replay has the length of the file as fuel, and each record takes a
-- byte at least; Snapshot/Files shows that any fuel of that size gives the same. The loop of
-- `random_members` has the number of members as fuel, one for each round. The loop of the reaper runs
-- once for each member of the list, as its index or its bound moves in each round.
--
-- Not modelled. The handlers use the delegate's encoders, which the user may replace, as the parameter
-- `Codec` (Serf.antt), with what is relied on of them as hypotheses (`NodeCodec`). It tells on what
-- bytes the decoders of messages and filters panic; those of tags, ids and nodes do not. Wire models the
-- default formats, panics included, over those of other crates, which are parameters (`Transformable`),
-- for a build without the feature `encryption`. memberlist and the async runtime are what calls the
-- handlers. File system errors, flushes and crashes of the snapshot are left out, as are the messages
-- of types/src/key.rs, the stream of internal queries and those on keys, the key manager, network
-- coordinates (floating point), options, plain getters and tests.
pub mod Prelude
pub mod Types
pub mod Wire
pub mod Serf
pub mod Api
pub mod Clock
pub mod Coalesce
pub mod Members
pub mod Events
pub mod Queries
pub mod Snapshot
pub mod Delegate
pub mod Conflict
pub mod Tests
