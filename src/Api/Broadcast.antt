-- ===== src/Api/Broadcast.antt =====
-- `has_alive_members`, `broadcast`, `broadcast_join` and `force_leave` of core/src/serf/base.rs.
use ruserf.Prelude.{
  ℕ, ◌+◌, Bool, true, false, not, none, some, List, [], ◌∷◌, ◌++◌, Eq, ◌==◌, if◌then◌else◌,
}
use ruserf.Types.{Bytes, MessageType, MemberState, JoinMessage, LeaveMessage}
use ruserf.Serf.{Serf, SerfMessage, Codec}
use ruserf.Clock.{witness}
use ruserf.Queries.Wire.{type_byte, padded}
use ruserf.Members.Base.{is_alive, id_of, status_of}
use ruserf.Members.Join.{handle_node_join_intent}
use ruserf.Members.Leave.{handle_node_leave_intent}
use ruserf.Api.{Error, Result, ok, err}

-- `MessageType::from(&msg)`
abbrev pub type_of : {I A : Type 0} → SerfMessage I A → MessageType
type_of (SerfMessage.leave _) = MessageType.leave
type_of (SerfMessage.join _) = MessageType.join
type_of (SerfMessage.push_pull _) = MessageType.push_pull
type_of (SerfMessage.user_event _) = MessageType.user_event
type_of (SerfMessage.query _) = MessageType.query
type_of (SerfMessage.query_response _) = MessageType.query_response
type_of (SerfMessage.conflict_response _) = MessageType.conflict_response

-- The type byte and the encoding, in a buffer of the announced length.
abbrev pub raw_message : MessageType → ℕ → Bytes → Bytes
raw_message ty len bytes = padded (len + 1) (type_byte ty ∷ bytes)

-- Whether a broadcast was sent within the timeout.
pub data Notified : Type 0 where
  sent timed_out closed : Notified

module _ {I A : Type 0} ⦃e : Eq I⦄ where
  -- The loop over the members other than the local one.
  unfoldable pub any_alive : I → List (I × MemberState I A) → Bool
  any_alive local [] = false
  any_alive local ((id, member) ∷ rest) =
      let more = any_alive local rest in
      if id_of member == local then more else if is_alive (status_of member) then true else more

  unfoldable pub has_alive_members : Serf I A → Bool
  unfolding any_alive
  has_alive_members s = any_alive s.local_node.id s.members.states

module _ {I A M : Type 0} ⦃e : Eq I⦄ (codec : Codec I A) where
  unfoldable pub broadcast : SerfMessage I A → Serf I A → Serf I A × Result M (Unit {0})
  broadcast msg s = elim (codec.encode_message msg) [
    | none ↦ (s, err Error.transform_delegate)
    | some bytes ↦ (
      record s {
        broadcasts =
            s.broadcasts ++ raw_message (type_of msg) (codec.message_encoded_len msg) bytes ∷ [];
      },
      ok tt,
    )
  ]

  unfoldable pub broadcast_join : (ltime now : ℕ) → Serf I A → Serf I A × Result M (Unit {0})
  unfolding broadcast witness handle_node_join_intent
  broadcast_join ltime now s =
      let msg : JoinMessage I = record { ltime = ltime; id = s.local_node.id } in
      let witnessed : Serf I A = record s { clock = witness s.clock ltime } in
      broadcast (SerfMessage.join msg) (handle_node_join_intent msg now witnessed).0

  abbrev notified : Notified → Result M (Unit {0})
  notified sent = ok tt
  notified timed_out = err Error.removal_broadcast_timeout
  notified closed = err Error.broadcast_channel_closed

  unfoldable pub force_leave : I → Bool → ℕ → Notified → Serf I A → Serf I A × Result M (Unit {0})
  unfolding handle_node_leave_intent has_alive_members broadcast
  force_leave id prune now outcome s =
      let msg : LeaveMessage I = record { ltime = s.clock; id = id; prune = prune } in
      let handled = (handle_node_leave_intent msg now s).0 in
      if not (has_alive_members handled)
      then (handled, ok tt)
      else let (queued, r) = broadcast (SerfMessage.leave msg) handled in
        elim r [ ok _ ↦ (queued, notified outcome) | err x ↦ (queued, err x) ]
