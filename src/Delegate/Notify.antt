-- ===== src/Delegate/Notify.antt =====
-- `notify_message` of core/src/serf/delegate.rs, and `decode_internal_query` of
-- core/src/event/crate_event.rs, with encryption switched on. `none` is a panic. `now` is the wall time
-- of the call.
use ruserf.Prelude.{
  ℕ, ◌+◌, Bool, true, false, Option, none, some, [], ◌∷◌, ◌++◌, Eq, ◌==◌, list_eq, nat_eq, ltb,
  length, drop, if◌then◌else◌,
}
use ruserf.Types.{
  Bytes, MessageType, JoinMessage, LeaveMessage, UserEventMessage, QueryMessage,
  QueryResponseMessage, InternalQueryEvent, node_eq,
}
use ruserf.Serf.{Serf, SerfMessage, Codec}
use ruserf.Members.Join.{handle_node_join_intent}
use ruserf.Members.Leave.{handle_node_leave_intent}
use ruserf.Events.Handler.{handle_user_event}
use ruserf.Queries.Wire.{message_type}
use ruserf.Queries.Handler.{handle_query}
use ruserf.Queries.Response.{handle_query_response}

-- The names of the internal queries, in ASCII.
abbrev pub internal_ping : Bytes
internal_ping = 95 ∷ 114 ∷ 117 ∷ 115 ∷ 101 ∷ 114 ∷ 102 ∷ 95 ∷ 112 ∷ 105 ∷ 110 ∷ 103 ∷ []

abbrev pub internal_conflict : Bytes
internal_conflict =
    95 ∷ 114 ∷ 117 ∷ 115 ∷ 101 ∷ 114 ∷ 102 ∷ 95 ∷ 99 ∷ 111 ∷ 110 ∷ 102 ∷ 108 ∷ 105 ∷ 99 ∷ 116 ∷ []

abbrev pub internal_install_key : Bytes
internal_install_key =
    95 ∷ 114 ∷ 117 ∷ 115 ∷ 101 ∷ 114 ∷ 102 ∷ 95 ∷ 105 ∷ 110 ∷ 115 ∷ 116 ∷ 97 ∷ 108 ∷ 108 ∷ 95 ∷ 107
    ∷ 101 ∷ 121 ∷ []

abbrev pub internal_use_key : Bytes
internal_use_key =
    95 ∷ 114 ∷ 117 ∷ 115 ∷ 101 ∷ 114 ∷ 102 ∷ 95 ∷ 117 ∷ 115 ∷ 101 ∷ 95 ∷ 107 ∷ 101 ∷ 121 ∷ []

abbrev pub internal_remove_key : Bytes
internal_remove_key =
    95 ∷ 114 ∷ 117 ∷ 115 ∷ 101 ∷ 114 ∷ 102 ∷ 95 ∷ 114 ∷ 101 ∷ 109 ∷ 111 ∷ 118 ∷ 101 ∷ 95 ∷ 107 ∷ 101
    ∷ 121 ∷ []

abbrev pub internal_list_keys : Bytes
internal_list_keys =
    95 ∷ 114 ∷ 117 ∷ 115 ∷ 101 ∷ 114 ∷ 102 ∷ 95 ∷ 108 ∷ 105 ∷ 115 ∷ 116 ∷ 95 ∷ 107 ∷ 101 ∷ 121 ∷ 115
    ∷ []

-- What a query's name asks of the library itself.
pub data InternalQuery (I : Type 0) : Type 0 where
  external : InternalQuery I
  malformed : InternalQuery I
  internal : InternalQueryEvent I → InternalQuery I

module _ {I A : Type 0} (codec : Codec I A) where
  unfoldable pub decode_internal_query : (name payload : Bytes) → InternalQuery I
  decode_internal_query name payload =
      if name == internal_ping
      then InternalQuery.internal InternalQueryEvent.ping
      else if name == internal_conflict
      then (elim (codec.decode_id payload) [
        | none ↦ InternalQuery.malformed
        | some id ↦ InternalQuery.internal (InternalQueryEvent.conflict id)
      ])
      else if name == internal_install_key
      then InternalQuery.internal InternalQueryEvent.install_key
      else if name == internal_use_key
      then InternalQuery.internal InternalQueryEvent.use_key
      else if name == internal_remove_key
      then InternalQuery.internal InternalQueryEvent.remove_key
      else if name == internal_list_keys
      then InternalQuery.internal InternalQueryEvent.list_key
      else InternalQuery.external

-- The types whose messages are decoded.
abbrev pub is_decoded : MessageType → Bool
is_decoded MessageType.leave = true
is_decoded MessageType.join = true
is_decoded MessageType.user_event = true
is_decoded MessageType.query = true
is_decoded MessageType.query_response = true
is_decoded _ = false

-- `if let SerfMessage::Leave(l) = l`, and so on.
module _ {I A : Type 0} where
  abbrev pub as_leave : SerfMessage I A → Option (LeaveMessage I)
  as_leave (SerfMessage.leave l) = some l
  as_leave _ = none

  abbrev pub as_join : SerfMessage I A → Option (JoinMessage I)
  as_join (SerfMessage.join j) = some j
  as_join _ = none

  abbrev pub as_user_event : SerfMessage I A → Option UserEventMessage
  as_user_event (SerfMessage.user_event ue) = some ue
  as_user_event _ = none

  abbrev pub as_query : SerfMessage I A → Option (QueryMessage I A)
  as_query (SerfMessage.query q) = some q
  as_query _ = none

  abbrev pub as_query_response : SerfMessage I A → Option (QueryResponseMessage I A)
  as_query_response (SerfMessage.query_response qr) = some qr
  as_query_response _ = none

module _ {I A : Type 0} where
  abbrev pub queue_broadcast : Bytes → Serf I A × Bool → Serf I A
  queue_broadcast msg r =
      if r.1 then record r.0 { broadcasts = r.0.broadcasts ++ msg ∷ [] } else r.0

  abbrev pub queue_event_broadcast : Bytes → Option (Serf I A × Bool) → Option (Serf I A)
  queue_event_broadcast msg none = none
  queue_event_broadcast msg (some r) =
      some (if r.1 then record r.0 { event_broadcasts = r.0.event_broadcasts ++ msg ∷ [] } else r.0)

  abbrev pub queue_query_broadcast : Bytes → Option (Serf I A × Bool) → Option (Serf I A)
  queue_query_broadcast msg none = none
  queue_query_broadcast msg (some r) =
      some (if r.1 then record r.0 { query_broadcasts = r.0.query_broadcasts ++ msg ∷ [] } else r.0)

module _ {I A : Type 0} ⦃e : Eq I⦄ ⦃a : Eq A⦄ (codec : Codec I A) (draws : ℕ → ℕ) (now : ℕ) where
  -- A query: an internal one that does not decode is dropped.
  unfoldable pub notify_query : Bytes → QueryMessage I A → Serf I A → Option (Serf I A)
  unfolding decode_internal_query handle_query
  notify_query msg q s = elim (decode_internal_query codec q.name q.payload) [
    | InternalQuery.malformed ↦ some s
    | InternalQuery.internal ty ↦ queue_query_broadcast msg (handle_query codec draws q (some ty) s)
    | InternalQuery.external ↦ queue_query_broadcast msg (handle_query codec draws q none s)
  ]

  -- A message that decodes, by the type of its first byte; one that decodes to something else is
  -- dropped.
  unfoldable pub notify_decoded :
      MessageType → Bytes → SerfMessage I A → Serf I A → Option (Serf I A)
  unfolding handle_node_leave_intent handle_node_join_intent handle_user_event notify_query
      handle_query_response
  notify_decoded MessageType.leave msg m s = elim (as_leave m) [
    | none ↦ some s
    | some l ↦ some (queue_broadcast msg (handle_node_leave_intent l now s))
  ]
  notify_decoded MessageType.join msg m s = elim (as_join m) [
    | none ↦ some s
    | some j ↦ some (queue_broadcast msg (handle_node_join_intent j now s))
  ]
  notify_decoded MessageType.user_event msg m s = elim (as_user_event m) [
    | none ↦ some s
    | some ue ↦ queue_event_broadcast msg (handle_user_event ue s)
  ]
  notify_decoded MessageType.query msg m s = elim (as_query m) [
    | none ↦ some s
    | some q ↦ notify_query msg q s
  ]
  notify_decoded MessageType.query_response msg m s = elim (as_query_response m) [
    | none ↦ some s
    | some qr ↦ some (handle_query_response qr now s)
  ]
  notify_decoded _ msg m s = some s

  -- A relayed message is sent on to the node it names.
  unfoldable pub notify_relay : Bytes → Bytes → Serf I A → Option (Serf I A)
  notify_relay msg body s = elim (codec.decode_node body) [
    | none ↦ some s
    | some (consumed, n) ↦
        if ltb (length msg) (consumed + 1)
        then none
        else some (record s { sends = s.sends ++ (n.address, drop (consumed + 1) msg) ∷ [] })
  ]

  unfoldable pub notify_typed : MessageType → Bytes → Bytes → Serf I A → Option (Serf I A)
  unfolding notify_decoded notify_relay
  notify_typed MessageType.relay msg body s = notify_relay msg body s
  notify_typed ty msg body s =
      if is_decoded ty
      then (if codec.message_panics ty body then none else elim (codec.decode_message ty body) [
        | none ↦ some s
        | some decoded ↦ notify_decoded ty msg decoded s
      ])
      else some s

  unfoldable pub notify_message : Bytes → Serf I A → Option (Serf I A)
  unfolding message_type notify_typed
  notify_message [] s = some s
  notify_message (b ∷ body) s = elim (message_type b) [
    | none ↦ some s
    | some ty ↦ notify_typed ty (b ∷ body) body s
  ]
