-- ===== src/Wire/Messages.antt =====
-- The formats of the messages: join.rs, leave.rs, user_event.rs, query.rs and filter.rs of types/src.
-- `room` is the length of the buffer that is written into.
use ruserf.Prelude.{
  ℕ, zero, suc, ◌+◌, ◌*◌, ◌/◌, ◌%◌, true, false, not, Option, some, List, [], ◌∷◌, ◌==◌, nat_eq,
  length, to_ℕ,
}
use ruserf.Types.{
  Bytes, Node, JoinMessage, LeaveMessage, UserEvent, UserEvents, UserEventMessage, QueryFlag,
  QueryMessage, QueryResponseMessage,
}
use ruserf.Serf.{Filter}
use ruserf.Wire.{
  Parser, ◌>>=◌, return, fails, Transformable, field, read_byte, read_u32, need, u32_bytes, ◌⧺◌,
  Message, Check, decode_framed, encode_framed, nested, read_many, write_many, sum_len,
}

-- The formats of other crates, and that of an id.
pub record Formats (I A : Type 0) : Type 0 where
  pub varint : Transformable ℕ
  pub text : Transformable Bytes
  pub bytes : Transformable Bytes
  pub duration : Transformable ℕ
  pub id : Transformable I
  pub node : Transformable (Node I A)

-- `LamportTime` (types/src/clock.rs), a wrapper of a u64 that is written as a varint.
abbrev pub lamport_time : Transformable ℕ → Transformable ℕ
lamport_time varint = record {
  encode = λ t. varint.encode t;
  encoded_len = λ t. varint.encoded_len t;
  decode = λ src. varint.decode src;
}

abbrev pub byte : ℕ → Option Bytes
byte b = some (b ∷ [])

abbrev pub u32 : ℕ → Option Bytes
u32 n = some (u32_bytes n)

-- The number of elements, then each of them.
abbrev pub write_list : {T : Type 0} → (T → Option Bytes) → List T → Option Bytes
write_list encode vs = u32 (length vs) ⧺ write_many encode vs

abbrev pub read_list : {T : Type 0} → Parser T → Parser (List T)
read_list p = read_u32 >>= λ n. read_many n p

-- The bits of `QueryFlag`.
abbrev pub flag_bits : QueryFlag → ℕ
flag_bits f = to_ℕ f.ack + 2 * to_ℕ f.no_broadcast

abbrev pub flag_of : ℕ → QueryFlag
flag_of b = record { ack = b % 2 == 1; no_broadcast = b / 2 % 2 == 1 }

abbrev pub announced_check : Check
announced_check = record { least = 4; slack = 0; announced = true }

abbrev pub offset_check : Check
offset_check = record { least = 4; slack = 0; announced = false }

-- `LeaveMessage::decode` adds 5 to the wrong side.
abbrev pub leave_check : Check
leave_check = record { least = 5; slack = 5; announced = false }

abbrev pub filter_check : Check
filter_check = record { least = 5; slack = 0; announced = false }

module _ {I A : Type 0} (f : Formats I A) where
  abbrev pub join_len : JoinMessage I → ℕ
  join_len m = 4 + (lamport_time f.varint).encoded_len m.ltime + f.id.encoded_len m.id

  unfoldable pub encode_join : ℕ → JoinMessage I → Option Bytes
  unfolding encode_framed
  encode_join room m =
      encode_framed (join_len m) room ((lamport_time f.varint).encode m.ltime ⧺ f.id.encode m.id)

  unfoldable pub decode_join : Bytes → Message (JoinMessage I)
  unfolding decode_framed field
  decode_join = decode_framed announced_check (
      field (lamport_time f.varint) >>= λ ltime.
      field f.id >>= λ id. return (record { ltime = ltime; id = id }))

  abbrev pub leave_len : LeaveMessage I → ℕ
  leave_len m = 4 + 1 + f.id.encoded_len m.id + (lamport_time f.varint).encoded_len m.ltime

  unfoldable pub encode_leave : ℕ → LeaveMessage I → Option Bytes
  unfolding encode_framed
  encode_leave room m =
      encode_framed (leave_len m) room
        (byte (to_ℕ m.prune) ⧺ (lamport_time f.varint).encode m.ltime ⧺ f.id.encode m.id)

  unfoldable pub decode_leave : Bytes → Message (LeaveMessage I)
  unfolding decode_framed field
  decode_leave = decode_framed leave_check (
      read_byte >>= λ prune. field (lamport_time f.varint) >>= λ ltime.
      field f.id >>= λ id. return (record { ltime = ltime; id = id; prune = not (prune == 0) }))

  abbrev pub user_event_len : UserEvent → ℕ
  user_event_len m = 4 + f.text.encoded_len m.name + f.bytes.encoded_len m.payload

  unfoldable pub encode_user_event : ℕ → UserEvent → Option Bytes
  unfolding encode_framed
  encode_user_event room m =
      encode_framed (user_event_len m) room (f.text.encode m.name ⧺ f.bytes.encode m.payload)

  unfoldable pub decode_user_event : Bytes → Message UserEvent
  unfolding decode_framed field
  decode_user_event = decode_framed announced_check (
      field f.text >>= λ name.
      field f.bytes >>= λ payload. return (record { name = name; payload = payload }))

  abbrev pub user_events_len : UserEvents → ℕ
  user_events_len m =
      4 + (lamport_time f.varint).encoded_len m.ltime + 4 + sum_len user_event_len m.events

  -- Each event gets the rest of the buffer, which has room for it.
  unfoldable pub encode_user_events : ℕ → UserEvents → Option Bytes
  unfolding encode_framed write_many encode_user_event
  encode_user_events room m = encode_framed (user_events_len m) room (
      (lamport_time f.varint).encode m.ltime
      ⧺ write_list (λ e. encode_user_event (user_event_len e) e) m.events)

  unfoldable pub decode_user_events : Bytes → Message UserEvents
  unfolding decode_framed field read_many nested decode_user_event
  decode_user_events = decode_framed announced_check (
      field (lamport_time f.varint) >>= λ ltime. read_list (nested decode_user_event) >>= λ events.
      return (record { ltime = ltime; events = events }))

  abbrev pub user_event_message_len : UserEventMessage → ℕ
  user_event_message_len m =
      4
      + (lamport_time f.varint).encoded_len m.ltime
      + f.text.encoded_len m.name
      + f.bytes.encoded_len m.payload
      + 1

  unfoldable pub encode_user_event_message : ℕ → UserEventMessage → Option Bytes
  unfolding encode_framed
  encode_user_event_message room m = encode_framed (user_event_message_len m) room (
      byte (to_ℕ m.cc)
      ⧺ (lamport_time f.varint).encode m.ltime
      ⧺ f.text.encode m.name
      ⧺ f.bytes.encode m.payload)

  unfoldable pub decode_user_event_message : Bytes → Message UserEventMessage
  unfolding decode_framed field
  decode_user_event_message = decode_framed announced_check (
      read_byte >>= λ cc. field (lamport_time f.varint) >>= λ ltime. field f.text >>= λ name.
      field f.bytes >>= λ payload.
      return (record { ltime = ltime; name = name; payload = payload; cc = not (cc == 0) }))

  abbrev pub response_len : QueryResponseMessage I A → ℕ
  response_len m =
      4
      + (lamport_time f.varint).encoded_len m.ltime
      + 4
      + f.node.encoded_len m.from
      + 4
      + f.bytes.encoded_len m.payload

  unfoldable pub encode_response : ℕ → QueryResponseMessage I A → Option Bytes
  unfolding encode_framed
  encode_response room m = encode_framed (response_len m) room (
      (lamport_time f.varint).encode m.ltime
      ⧺ u32 m.id
      ⧺ f.node.encode m.from
      ⧺ u32 (flag_bits m.flags)
      ⧺ f.bytes.encode m.payload)

  unfoldable pub decode_response : Bytes → Message (QueryResponseMessage I A)
  unfolding decode_framed field
  decode_response = decode_framed offset_check (
      field (lamport_time f.varint) >>= λ ltime. need 4 read_u32 >>= λ id. field f.node >>= λ from.
      need 4 read_u32 >>= λ flags. field f.bytes >>= λ payload.
      return
        (record { ltime = ltime; id = id; from = from; flags = flag_of flags; payload = payload }))

  abbrev pub query_len : QueryMessage I A → ℕ
  query_len m =
      4
      + (lamport_time f.varint).encoded_len m.ltime
      + 4
      + f.node.encoded_len m.from
      + 4
      + sum_len f.bytes.encoded_len m.filters
      + 4
      + 1
      + f.duration.encoded_len m.timeout
      + f.text.encoded_len m.name
      + f.bytes.encoded_len m.payload

  unfoldable pub encode_query : ℕ → QueryMessage I A → Option Bytes
  unfolding encode_framed write_many
  encode_query room m = encode_framed (query_len m) room (
      (lamport_time f.varint).encode m.ltime
      ⧺ u32 m.id
      ⧺ f.node.encode m.from
      ⧺ u32 (length m.filters)
      ⧺ write_many f.bytes.encode m.filters
      ⧺ u32 (flag_bits m.flags)
      ⧺ byte m.relay_factor
      ⧺ f.duration.encode m.timeout
      ⧺ f.text.encode m.name
      ⧺ f.bytes.encode m.payload)

  unfoldable pub decode_query : Bytes → Message (QueryMessage I A)
  unfolding decode_framed field read_many
  decode_query = decode_framed offset_check (
      field (lamport_time f.varint) >>= λ ltime. need 4 read_u32 >>= λ id. field f.node >>= λ from.
      need 4 read_u32 >>= λ num_filters. read_many num_filters (field f.bytes) >>= λ filters.
      need 4 read_u32 >>= λ flags. need 1 read_byte >>= λ relay_factor.
      field f.duration >>= λ timeout. field f.text >>= λ name. field f.bytes >>= λ payload.
      return (record {
        ltime = ltime;
        id = id;
        from = from;
        filters = filters;
        flags = flag_of flags;
        relay_factor = relay_factor;
        timeout = timeout;
        name = name;
        payload = payload;
      }))

  abbrev pub filter_len : Filter I → ℕ
  filter_len (Filter.id nodes) = 4 + (1 + 4 + sum_len f.id.encoded_len nodes)
  filter_len (Filter.tag tag expr) = 4 + (1 + f.text.encoded_len tag + f.text.encoded_len expr)

  unfoldable pub encode_filter : ℕ → Filter I → Option Bytes
  unfolding encode_framed write_many
  encode_filter room (Filter.id nodes) =
      encode_framed (filter_len (Filter.id nodes)) room (byte 0 ⧺ write_list f.id.encode nodes)
  encode_filter room (Filter.tag tag expr) =
      encode_framed (filter_len (Filter.tag tag expr)) room
        (byte 1 ⧺ f.text.encode tag ⧺ f.text.encode expr)

  -- By the type byte, 0 for ids and 1 for a tag; another one is an error.
  unfoldable pub decode_filter_body : ℕ → Parser (Filter I)
  unfolding field read_many
  decode_filter_body zero = read_list (field f.id) >>= λ nodes. return (Filter.id nodes)
  decode_filter_body (suc zero) =
      field f.text >>= λ tag. field f.text >>= λ expr. return (Filter.tag tag expr)
  decode_filter_body (suc (suc _)) = λ src. fails

  unfoldable pub decode_filter : Bytes → Message (Filter I)
  unfolding decode_framed decode_filter_body
  decode_filter = decode_framed filter_check (read_byte >>= λ ty. decode_filter_body ty)
