-- ===== src/Serf.antt =====
-- The state of one Serf instance: `SerfCore`, `EventCore`, `QueryCore`, `CoordCore`
-- (core/src/serf.rs) and `QueryResponse` (core/src/serf/query.rs). Locks leave no trace: a handler
-- runs from one state to the next. What the handlers hand to channels, queues, the network and
-- the runtime is kept in order in the logs `events`, `broadcasts`, `event_broadcasts`,
-- `query_broadcasts`, `sends` and `refutations`. What the user's `TransformDelegate` decides is the
-- parameter `Codec`.
use ruserf.Prelude.{ℕ, Bool, Option, List}
use ruserf.Types.{
  Bytes, Tags, MessageType, SerfState, Node, Member, Members, JoinMessage, LeaveMessage,
  UserEventMessage, UserEvents, Queries, QueryMessage, QueryResponseMessage, PushPullMessage,
  CrateEvent,
}

-- A bounded channel: what it holds, oldest first.
pub record Channel (M : Type 0) : Type 0 where
  pub capacity : ℕ
  pub queue : List M
  pub closed : Bool

pub record NodeResponse (I A : Type 0) : Type 0 where
  pub from : Node I A
  pub payload : Bytes

pub record QueryResponse (I A : Type 0) : Type 0 where
  pub deadline : ℕ
  pub id : ℕ
  pub ltime : ℕ
  pub closed : Bool
  pub acks : List (Node I A)
  pub responses : List (Node I A)
  pub ack_ch : Option (Channel (Node I A))
  pub resp_ch : Channel (NodeResponse I A)

pub record EventCore : Type 0 where
  pub min_time : ℕ
  pub buffer : List (Option UserEvents)

pub record QueryCore (I A : Type 0) : Type 0 where
  pub responses : List (ℕ × QueryResponse I A)
  pub min_time : ℕ
  pub buffer : List (Option Queries)

-- The coordinate client's samples by node, and the cached coordinates.
pub record CoordCore (I : Type 0) : Type 0 where
  pub samples : List (I × Bytes)
  pub cache : List (I × Bytes)

pub record Options : Type 0 where
  pub protocol_version : ℕ
  pub delegate_version : ℕ
  pub memberlist_protocol_version : ℕ
  pub memberlist_delegate_version : ℕ
  pub max_user_event_size : ℕ
  pub query_size_limit : ℕ
  pub query_response_size_limit : ℕ
  pub tags : Tags

pub record Serf (I A : Type 0) : Type 0 where
  pub local_node : Node I A
  pub opts : Options
  pub clock : ℕ
  pub event_clock : ℕ
  pub query_clock : ℕ
  pub members : Members I A
  pub event_core : EventCore
  pub query_core : QueryCore I A
  pub state : SerfState
  pub event_join_ignore : Bool
  pub snapshot_left : Option Bool
  pub shutdown_closed : Bool
  pub coord_core : Option (CoordCore I)
  pub events : List (CrateEvent I A)
  pub broadcasts : List Bytes
  pub event_broadcasts : List Bytes
  pub query_broadcasts : List Bytes
  pub sends : List (A × Bytes)
  pub refutations : List ℕ

pub data SerfMessage (I A : Type 0) : Type 0 where
  leave : LeaveMessage I → SerfMessage I A
  join : JoinMessage I → SerfMessage I A
  push_pull : PushPullMessage I → SerfMessage I A
  user_event : UserEventMessage → SerfMessage I A
  query : QueryMessage I A → SerfMessage I A
  query_response : QueryResponseMessage I A → SerfMessage I A
  conflict_response : Member I A → SerfMessage I A

pub data Filter (I : Type 0) : Type 0 where
  id : List I → Filter I
  tag : Bytes → Bytes → Filter I

-- `TransformDelegate`, and the regular expressions of the `regex` crate (`none`: no valid
-- expression). A decoder returns `none` on malformed input, and else what it read beside the
-- number of bytes that it read. `message_panics` and `filter_panics` tell on what bytes the decoders of
-- messages and filters panic instead, as the default ones do on some; the other decoders do not.
pub record Codec (I A : Type 0) : Type 0 where
  pub decode_tags : Bytes → Option Tags
  pub decode_id : Bytes → Option I
  pub tags_encoded_len : Tags → ℕ
  pub encode_filter : Filter I → Option Bytes
  pub encode_node : Node I A → Option Bytes
  pub node_encoded_len : Node I A → ℕ
  pub decode_node : Bytes → Option (ℕ × Node I A)
  pub encode_message : SerfMessage I A → Option Bytes
  pub message_encoded_len : SerfMessage I A → ℕ
  pub decode_message : MessageType → Bytes → Option (SerfMessage I A)
  pub message_panics : MessageType → Bytes → Bool
  pub decode_filter : Bytes → Option (Filter I)
  pub filter_panics : Bytes → Bool
  pub regex_is_match : Bytes → Option (Bytes → Bool)
