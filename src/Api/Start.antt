-- ===== src/Api/Start.antt =====
-- `new_in` of core/src/serf/base.rs, with `handle_rejoin` and the start of the background tasks left
-- out. What memberlist makes of the node is a parameter, and what `open_and_replay_snapshot` read.
use ruserf.Prelude.{
  ℕ, ◌+◌, ◌%◌, Bool, true, false, not, ◌&&◌, Option, none, some, [], ◌∷◌, Eq, ltb, replicate,
  is_some, if◌then◌else◌,
}
use ruserf.Types.{SerfState, Tags, Node, NodeState}
use ruserf.Serf.{Serf, Options, Codec}
use ruserf.Clock.{u64_mod, new, increment, witness}
use ruserf.Snapshot.Replay.{ReplayResult, empty_replay}
use ruserf.Members.Join.{handle_node_join}
use ruserf.Api.{Error, Result, ok, err}
use ruserf.Api.UserEvent.{user_event_size_limit}

-- The options that only `new_in` looks at.
pub record StartOptions : Type 0 where
  pub opts : Options
  pub event_buffer_size : ℕ
  pub query_buffer_size : ℕ
  pub disable_coordinates : Bool

-- A clock of at least 1, past what the snapshot had.
unfoldable pub restored_clock : ℕ → ℕ
unfolding new increment witness
restored_clock old = witness (increment new).0 old

-- Times up to the snapshot's are too old; without a snapshot none is.
abbrev pub min_time : Bool → ℕ → ℕ
min_time has_snapshot old = if has_snapshot then (old + 1) % u64_mod else 0

abbrev pub has_no_tags : Tags → Bool
has_no_tags [] = true
has_no_tags (t ∷ ts) = false

module _ {I A : Type 0} ⦃e : Eq I⦄ ⦃a : Eq A⦄ where
  abbrev pub replayed : Option (ReplayResult I A) → ReplayResult I A
  replayed none = empty_replay
  replayed (some rs) = rs

  unfoldable pub initial : StartOptions → Option (ReplayResult I A) → Node I A → Serf I A
  unfolding restored_clock
  initial o snapshot local =
      let rs = replayed snapshot in
      record {
        local_node = local;
        opts = o.opts;
        clock = restored_clock rs.last_clock;
        event_clock = restored_clock rs.last_event_clock;
        query_clock = restored_clock rs.last_query_clock;
        members = record {
          states = [];
          recent_intents = [];
          left_members = [];
          failed_members = [];
        };
        event_core = record {
          min_time = min_time (is_some snapshot) rs.last_event_clock;
          buffer = replicate o.event_buffer_size none;
        };
        query_core = record {
          responses = [];
          min_time = min_time (is_some snapshot) rs.last_query_clock;
          buffer = replicate o.query_buffer_size none;
        };
        state = SerfState.alive;
        event_join_ignore = false;
        snapshot_left = if is_some snapshot then some false else none;
        shutdown_closed = false;
        coord_core =
            if o.disable_coordinates then none else some (record { samples = []; cache = [] });
        events = [];
        broadcasts = [];
        event_broadcasts = [];
        query_broadcasts = [];
        sends = [];
        refutations = [];
      }

  -- `notify_join` for the local node, if memberlist knows its state.
  unfoldable pub join_local : Codec I A → Option (NodeState I A) → Serf I A → Serf I A
  unfolding handle_node_join
  join_local codec none s = s
  join_local codec (some n) s = handle_node_join codec n s

  unfoldable pub new_in :
      {M : Type 0}
      → Codec I A
      → (meta_max_size : ℕ) → StartOptions
      → Option (ReplayResult I A)
      → Result M (Node I A × Option (NodeState I A))
      → Result M (Serf I A)
  unfolding initial join_local
  new_in codec meta_max_size o snapshot memberlist =
      let len = codec.tags_encoded_len o.opts.tags in
      if ltb user_event_size_limit o.opts.max_user_event_size
      then err (Error.user_event_limit_too_large user_event_size_limit)
      else if not (has_no_tags o.opts.tags) && ltb meta_max_size len
      then err (Error.tags_too_large len)
      else elim memberlist [
        | err x ↦ err x
        | ok node ↦ ok (join_local codec node.1 (initial o snapshot node.0))
      ]
