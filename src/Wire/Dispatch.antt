-- ===== src/Wire/Dispatch.antt =====
-- `LpeTransfromDelegate` of core/src/delegate/transform.rs, with `Encodable` of types/src/message.rs: the
-- formats above as those of a `SerfMessage`.
use ruserf.Prelude.{
  ℕ, ◌<◌, ◌≡◌, ap, true, Option, some, ◌++◌, Eq, list_eq, nat_eq, length, keys, IsDistinct,
}
use ruserf.Types.{Bytes, MessageType}
use ruserf.Serf.{SerfMessage, Filter}
use ruserf.Api.Broadcast.{type_of}
use ruserf.Wire.{Message, read, refused, panicked}
use ruserf.Wire.Messages.{
  Formats, join_len, encode_join, decode_join, leave_len, encode_leave, decode_leave,
  user_event_message_len, encode_user_event_message, decode_user_event_message, query_len,
  encode_query, decode_query, response_len, encode_response, decode_response, filter_len,
  encode_filter, decode_filter,
}
use ruserf.Wire.States.{
  Versions, is_v1, push_pull_len, encode_push_pull, decode_push_pull, member_len, encode_member,
  decode_member,
}
use ruserf.Wire.RoundTrip.{
  AreCodecs, join-ReadsBack, leave-ReadsBack, user_event_message-ReadsBack, query-ReadsBack,
  response-ReadsBack, filter_id-ReadsBack, filter_tag-ReadsBack,
}
use ruserf.Wire.StateTrip.{push_pull-ReadsBack, member-ReadsBack}

abbrev pub map_message : {T U : Type 0} → (T → U) → Message T → Message U
map_message g (read n v) = read n (g v)
map_message g refused = refused
map_message g panicked = panicked

-- The largest u32 is one less.
abbrev pub IsU32 : ℕ → Type 0
IsU32 n = n < 4294967296

module _ {I A : Type 0} ⦃q : Eq I⦄ (f : Formats I A) (known : Versions) where
  unfoldable pub message_len : SerfMessage I A → ℕ
  message_len (SerfMessage.leave m) = leave_len f m
  message_len (SerfMessage.join m) = join_len f m
  message_len (SerfMessage.push_pull m) = push_pull_len f m
  message_len (SerfMessage.user_event m) = user_event_message_len f m
  message_len (SerfMessage.query m) = query_len f m
  message_len (SerfMessage.query_response m) = response_len f m
  message_len (SerfMessage.conflict_response m) = member_len f m

  unfoldable pub encode_message : ℕ → SerfMessage I A → Option Bytes
  unfolding encode_leave encode_join encode_push_pull encode_user_event_message encode_query
      encode_response encode_member
  encode_message room (SerfMessage.leave m) = encode_leave f room m
  encode_message room (SerfMessage.join m) = encode_join f room m
  encode_message room (SerfMessage.push_pull m) = encode_push_pull f room m
  encode_message room (SerfMessage.user_event m) = encode_user_event_message f room m
  encode_message room (SerfMessage.query m) = encode_query f room m
  encode_message room (SerfMessage.query_response m) = encode_response f room m
  encode_message room (SerfMessage.conflict_response m) = encode_member f room m

  -- A relay is an error. The other types are those of the feature `encryption`, which is off: without
  -- its arms they fall under `unreachable!()`.
  unfoldable pub decode_message : MessageType → Bytes → Message (SerfMessage I A)
  unfolding decode_leave decode_join decode_push_pull decode_user_event_message decode_query
      decode_response decode_member
  decode_message MessageType.leave src = map_message SerfMessage.leave (decode_leave f src)
  decode_message MessageType.join src = map_message SerfMessage.join (decode_join f src)
  decode_message MessageType.push_pull src =
      map_message SerfMessage.push_pull (decode_push_pull f src)
  decode_message MessageType.user_event src =
      map_message SerfMessage.user_event (decode_user_event_message f src)
  decode_message MessageType.query src = map_message SerfMessage.query (decode_query f src)
  decode_message MessageType.query_response src =
      map_message SerfMessage.query_response (decode_response f src)
  decode_message MessageType.conflict_response src =
      map_message SerfMessage.conflict_response (decode_member f known src)
  decode_message MessageType.relay src = refused
  decode_message _ src = panicked

  -- The numbers of a message fit their fields, its maps and sets have no repetition, and the versions
  -- are known.
  abbrev pub Fits : SerfMessage I A → Type 0
  Fits (SerfMessage.leave m) = Unit
  Fits (SerfMessage.join m) = Unit
  Fits (SerfMessage.push_pull m) =
      IsU32 (length m.status_ltimes)
      × IsU32 (length m.left_members)
      × IsDistinct (keys m.status_ltimes)
      × IsDistinct m.left_members
  Fits (SerfMessage.user_event m) = Unit
  Fits (SerfMessage.query m) = IsU32 m.id × IsU32 (length m.filters)
  Fits (SerfMessage.query_response m) = IsU32 m.id
  Fits (SerfMessage.conflict_response m) =
      IsU32 (length m.tags)
      × IsDistinct (keys m.tags)
      × (known.protocol m.memberlist_protocol_version ≡ true)
      × (known.delegate m.memberlist_delegate_version ≡ true)
      × (is_v1 m.protocol_version ≡ true)
      × (is_v1 m.delegate_version ≡ true)

  -- A message that is written has the announced length, and is read back whatever follows it, if the
  -- formats of other crates and of ids are read back, its length and the numbers that are written as a
  -- u32 fit one, its maps and sets have no repetition, and its versions are known. Messages on keys, of
  -- the feature `encryption`, are left out.
  pub decode_message-encode_message :
      AreCodecs f
      → (room : ℕ) (m : SerfMessage I A) (z rest : Bytes) → message_len m < 4294967296
      → Fits m
      → encode_message room m ≡ some z
      → (length z ≡ message_len m)
        × (decode_message (type_of m) (z ++ rest) ≡ read (message_len m) m)
  unfolding message_len encode_message decode_message
  decode_message-encode_message c room (SerfMessage.leave m) z rest small fit h =
      let r = leave-ReadsBack f c room m small z rest h in
      (r.0, ap (map_message SerfMessage.leave) r.1)
  decode_message-encode_message c room (SerfMessage.join m) z rest small fit h =
      let r = join-ReadsBack f c room m small z rest h in
      (r.0, ap (map_message SerfMessage.join) r.1)
  decode_message-encode_message c room (SerfMessage.push_pull m) z rest small fit h =
      let r = push_pull-ReadsBack f c room m small fit.0 fit.1 fit.2 fit.3 z rest h in
      (r.0, ap (map_message SerfMessage.push_pull) r.1)
  decode_message-encode_message c room (SerfMessage.user_event m) z rest small fit h =
      let r = user_event_message-ReadsBack f c room m small z rest h in
      (r.0, ap (map_message SerfMessage.user_event) r.1)
  decode_message-encode_message c room (SerfMessage.query m) z rest small fit h =
      let r = query-ReadsBack f c room m small fit.0 fit.1 z rest h in
      (r.0, ap (map_message SerfMessage.query) r.1)
  decode_message-encode_message c room (SerfMessage.query_response m) z rest small fit h =
      let r = response-ReadsBack f c room m small fit z rest h in
      (r.0, ap (map_message SerfMessage.query_response) r.1)
  decode_message-encode_message c room (SerfMessage.conflict_response m) z rest small fit h =
      let r =
        member-ReadsBack f c known room m small fit.0 fit.1 fit.2 fit.3 fit.4 fit.5 z rest h in
      (r.0, ap (map_message SerfMessage.conflict_response) r.1)

module _ {I A : Type 0} (f : Formats I A) where
  abbrev pub FilterFits : Filter I → Type 0
  FilterFits (Filter.id nodes) = IsU32 (length nodes)
  FilterFits (Filter.tag tag expr) = Unit

  -- A filter that is written has the announced length, and is read back whatever follows it, if the
  -- formats of ids and strings are read back, and its length and its number of ids fit a u32.
  pub decode_filter-encode_filter :
      AreCodecs f
      → (room : ℕ) (m : Filter I) (z rest : Bytes) → filter_len f m < 4294967296
      → FilterFits m
      → encode_filter f room m ≡ some z
      → (length z ≡ filter_len f m) × (decode_filter f (z ++ rest) ≡ read (filter_len f m) m)
  decode_filter-encode_filter c room (Filter.id nodes) z rest small fit h =
      filter_id-ReadsBack f c room nodes small fit z rest h
  decode_filter-encode_filter c room (Filter.tag tag expr) z rest small fit h =
      filter_tag-ReadsBack f c room tag expr small z rest h
