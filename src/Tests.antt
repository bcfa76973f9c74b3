-- ===== src/Tests.antt =====
-- A small cluster to run the model on, with nodes named and addressed by numbers; the children hold
-- the theorems at concrete inputs, by the part of the program.
pub mod Members
pub mod Clocks
pub mod Buffers
pub mod Queries
pub mod Snapshots
pub mod Wire
pub mod Coalescers
pub mod Operations
pub mod Formats
pub mod Conflicts
use ruserf.Prelude.{
  ℕ, ◌≤◌, ◌≡◌, refl, Bool, true, false, Option, none, some, List, [], ◌∷◌, ◌++◌, arith, nat_eq,
  lookup, value_unique, length,
}
use ruserf.Types.{Bytes, SerfState, Node, NodeState, QueryMessage, PushPullMessage, MessageType}
use ruserf.Serf.{Serf, Options, EventCore, QueryCore, SerfMessage, Filter, Codec}
use ruserf.Members.Invariant.{IsValid}
use ruserf.Members.History.{no_members}
use ruserf.Snapshot.Read.{NodeCodec}
use ruserf.Delegate.Safe.{IsHealthy}

abbrev pub decode_plain : Bytes → Option (ℕ × Node ℕ ℕ)
decode_plain [] = none
decode_plain (x ∷ []) = none
decode_plain (x ∷ y ∷ rest) = some (2, record { id = x; address = y })

abbrev pub probe : QueryMessage ℕ ℕ
probe = record {
  ltime = 4;
  id = 9;
  from = record { id = 2; address = 2 };
  filters = [];
  flags = record { ack = true; no_broadcast = false };
  relay_factor = 1;
  timeout = 5;
  name = 1 ∷ [];
  payload = [];
}

-- The state of a remote node: node 2 is there, node 3 has left, and one user event is buffered.
abbrev remote : PushPullMessage ℕ
remote = record {
  ltime = 9;
  status_ltimes = (2, 4) ∷ (3, 5) ∷ [];
  left_members = 3 ∷ [];
  event_ltime = 3;
  events =
      none ∷ some (record { ltime = 2; events = record { name = 1 ∷ []; payload = [] } ∷ [] }) ∷ [];
  query_ltime = 2;
}

abbrev decode_any : MessageType → Bytes → Option (SerfMessage ℕ ℕ)
decode_any MessageType.push_pull bytes = some (SerfMessage.push_pull remote)
decode_any _ bytes = some (SerfMessage.query probe)

-- Nodes are two bytes; every push/pull message is the state above, and every other one the probe.
abbrev pub plain : Codec ℕ ℕ
plain = record {
  decode_tags = λ bytes. some [];
  decode_id = λ bytes. none;
  tags_encoded_len = length;
  encode_filter = λ f. none;
  encode_node = λ n. some (n.id ∷ n.address ∷ []);
  node_encoded_len = λ n. 2;
  decode_node = decode_plain;
  encode_message = λ m. some (7 ∷ []);
  message_encoded_len = λ m. 1;
  decode_message = decode_any;
  message_panics = λ ty bytes. false;
  decode_filter = λ bytes. none;
  filter_panics = λ bytes. false;
  regex_is_match = λ expr. none;
}

pub plain_laws : NodeCodec plain
plain_laws = record {
  decoded =
      λ n bytes h. let same = value_unique _ bytes (n.id ∷ n.address ∷ []) h refl in rw same refl;
  measured =
      λ n bytes h. let same = value_unique _ bytes (n.id ∷ n.address ∷ []) h refl in rw same refl;
}

abbrev pub plain_options : Options
plain_options = record {
  protocol_version = 1;
  delegate_version = 1;
  memberlist_protocol_version = 1;
  memberlist_delegate_version = 1;
  max_user_event_size = 512;
  query_size_limit = 1024;
  query_response_size_limit = 1024;
  tags = [];
}

abbrev pub node_of : ℕ → Node ℕ ℕ
node_of n = record { id = n; address = n }

abbrev pub reported : ℕ → NodeState ℕ ℕ
reported n = record { node = node_of n; meta = []; has_left = false }

-- A node that has just started, with four slots in each buffer.
abbrev pub started : Serf ℕ ℕ
started = record {
  local_node = node_of 1;
  opts = plain_options;
  clock = 1;
  event_clock = 1;
  query_clock = 1;
  members = no_members;
  event_core = record { min_time = 0; buffer = none ∷ none ∷ none ∷ none ∷ [] };
  query_core = record { responses = []; min_time = 0; buffer = none ∷ none ∷ none ∷ none ∷ [] };
  state = SerfState.alive;
  event_join_ignore = false;
  snapshot_left = none;
  shutdown_closed = false;
  coord_core = none;
  events = [];
  broadcasts = [];
  event_broadcasts = [];
  query_broadcasts = [];
  sends = [];
  refutations = [];
}

pub started-IsValid : IsValid started.members
started-IsValid = record {
  fits = λ j. unfold lookup in (refl, refl);
  distinct = λ j. omega arith;
  failed_dated = tt;
  left_dated = tt;
}

pub started-IsHealthy : IsHealthy started
started-IsHealthy = record {
  members = started-IsValid;
  events = omega arith;
  queries = omega arith;
}
