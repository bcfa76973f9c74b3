-- ===== src/Api/UserEvent.antt =====
-- `user_event` and `set_tags` of core/src/serf/api.rs. `none` is the panic of `handle_user_event`.
use ruserf.Prelude.{ℕ, ◌+◌, Bool, Option, none, some, [], ◌∷◌, ◌++◌, ltb, length, if◌then◌else◌}
use ruserf.Types.{Bytes, Tags, MessageType, UserEventMessage}
use ruserf.Serf.{Serf, SerfMessage, Codec}
use ruserf.Clock.{increment}
use ruserf.Events.Handler.{handle_user_event}
use ruserf.Api.{Error, Result, ok, err}
use ruserf.Api.Broadcast.{raw_message}

-- `USER_EVENT_SIZE_LIMIT` of core/src/serf.rs: 9 KiB.
abbrev pub user_event_size_limit : ℕ
user_event_size_limit = 9216

abbrev pub new_user_event : {I A : Type 0} → Bytes → Bytes → Bool → Serf I A → UserEventMessage
new_user_event name payload coalesce s = record {
  ltime = s.event_clock;
  name = name;
  payload = payload;
  cc = coalesce;
}

module _ {I A M : Type 0} (codec : Codec I A) where
  -- What follows once the event is encoded.
  unfoldable pub send_user_event :
      UserEventMessage → Bytes → Serf I A → Option (Serf I A × Result M (Unit {0}))
  unfolding increment handle_user_event
  send_user_event msg raw s =
      elim (handle_user_event msg (record s { event_clock = (increment s.event_clock).0 })) [
        | none ↦ none
        | some handled ↦
            some (
              record handled.0 { event_broadcasts = handled.0.event_broadcasts ++ raw ∷ [] },
              ok tt,
            )
      ]

  unfoldable pub user_event :
      Bytes → Bytes → Bool → Serf I A → Option (Serf I A × Result M (Unit {0}))
  unfolding send_user_event
  user_event name payload coalesce s =
      let size = length name + length payload in
      let limit = s.opts.max_user_event_size in
      let msg = new_user_event name payload coalesce s in
      let len = codec.message_encoded_len (SerfMessage.user_event msg) in
      if ltb limit size
      then some (s, err (Error.user_event_limit_too_large limit))
      else if ltb user_event_size_limit size
      then some (s, err (Error.user_event_too_large user_event_size_limit))
      else if ltb limit len
      then some (s, err (Error.raw_user_event_too_large len))
      else if ltb user_event_size_limit len
      then some (s, err (Error.raw_user_event_too_large len))
      else elim (codec.encode_message (SerfMessage.user_event msg)) [
        | none ↦ some (s, err Error.transform_delegate)
        | some bytes ↦ send_user_event msg (raw_message MessageType.user_event len bytes) s
      ]

  -- `set_tags`. `Meta::MAX_SIZE` and the update of the node are memberlist's.
  unfoldable pub set_tags :
      (meta_max_size : ℕ)
      → (Serf I A → Serf I A × Result M (Unit {0}))
      → Tags
      → Serf I A
      → Serf I A × Result M (Unit {0})
  set_tags meta_max_size update_node tags s =
      if ltb meta_max_size (codec.tags_encoded_len tags)
      then (s, err (Error.tags_too_large (codec.tags_encoded_len tags)))
      else update_node (record s { opts = record s.opts { tags = tags } })
