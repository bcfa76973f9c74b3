-- ===== src/Wire/RoundTrip.antt =====
-- Each message is read back as it was written, whatever follows it (types/src).
use ruserf.Prelude.{
  ℕ, ◌≤◌, ◌<◌, ◌≡◌, refl, ap, ◌∙◌, Bool, true, false, not, Option, some, List, ◌++◌, ◌==◌, nat_eq,
  length, to_ℕ, arith,
}
use ruserf.Types.{
  Bytes, JoinMessage, LeaveMessage, UserEvent, UserEvents, UserEventMessage, QueryFlag,
  QueryMessage, QueryResponseMessage,
}
use ruserf.Serf.{Filter}
use ruserf.Wire.{Message, read, nested}
use ruserf.Wire.Codes.{
  Codes, IsCodec, Codes-cat, Codes-last, Codes-field, Codes-u32, Codes-byte, Codes-need,
  decode_framed-encode_framed,
}
use ruserf.Wire.Lists.{Codes-nested, Codes-many}
use ruserf.Wire.Messages.{
  lamport_time, Formats, announced_check, decode_filter, decode_filter_body, decode_join,
  decode_leave, decode_query, decode_response, decode_user_event, decode_user_event_message,
  decode_user_events, encode_filter, encode_join, encode_leave, encode_query, encode_response,
  encode_user_event, encode_user_event_message, encode_user_events, filter_check, filter_len,
  flag_bits, flag_of, join_len, leave_check, leave_len, offset_check, query_len, response_len,
  user_event_len, user_event_message_len, user_events_len,
}

flag_of-flag_bits : (f : QueryFlag) → flag_of (flag_bits f) ≡ f
flag_of-flag_bits f = ground arith

flag_byte : (b : Bool) → not (to_ℕ b == 0) ≡ b
flag_byte true = refl
flag_byte false = refl

flag_bits_lt : (f : QueryFlag) → flag_bits f < 4294967296
flag_bits_lt f = ground arith

pub record AreCodecs {I A : Type 0} (f : Formats I A) : Type 0 where
  pub varint : IsCodec f.varint
  pub text : IsCodec f.text
  pub bytes : IsCodec f.bytes
  pub duration : IsCodec f.duration
  pub id : IsCodec f.id
  pub node : IsCodec f.node

-- What is written is read back, with the length of what was written.
abbrev pub ReadsBack : {T : Type 0} → Option Bytes → (Bytes → Message T) → ℕ → T → Type 0
ReadsBack written decode len v =
    (z rest : Bytes) → written ≡ some z → (length z ≡ len) × (decode (z ++ rest) ≡ read len v)

module _ {I A : Type 0} (f : Formats I A) (c : AreCodecs f) where
  pub join-ReadsBack :
      (room : ℕ) (m : JoinMessage I)
      → join_len f m < 4294967296
      → ReadsBack (encode_join f room m) (decode_join f) (join_len f m) m
  unfolding encode_join decode_join
  join-ReadsBack room m small z rest h =
      decode_framed-encode_framed announced_check (join_len f m) room z rest
        (Codes-cat _ (Codes-field (lamport_time f.varint) m.ltime c.varint)
          (Codes-last _ (Codes-field f.id m.id c.id)))
        (omega arith) (omega arith) small h

  pub leave-ReadsBack :
      (room : ℕ) (m : LeaveMessage I)
      → leave_len f m < 4294967296
      → ReadsBack (encode_leave f room m) (decode_leave f) (leave_len f m) m
  unfolding encode_leave decode_leave
  leave-ReadsBack room m small z rest h =
      let decoded : record m { prune = not (to_ℕ m.prune == 0) } ≡ m =
        ap (λ p. record m { prune = p }) (flag_byte m.prune) in
      let r =
        decode_framed-encode_framed leave_check (leave_len f m) room z rest
          (Codes-cat _ (Codes-byte (to_ℕ m.prune)) (
            Codes-cat _ (Codes-field (lamport_time f.varint) m.ltime c.varint)
              (Codes-last _ (Codes-field f.id m.id c.id))))
          (omega arith) (omega arith) small h in
      (r.0, r.1 ∙ ap (read (leave_len f m)) decoded)

  pub user_event-ReadsBack :
      (room : ℕ) (m : UserEvent)
      → user_event_len f m < 4294967296
      → ReadsBack (encode_user_event f room m) (decode_user_event f) (user_event_len f m) m
  unfolding encode_user_event decode_user_event
  user_event-ReadsBack room m small z rest h =
      decode_framed-encode_framed announced_check (user_event_len f m) room z rest
        (Codes-cat _ (Codes-field f.text m.name c.text)
          (Codes-last _ (Codes-field f.bytes m.payload c.bytes)))
        (omega arith) (omega arith) small h

  pub user_event_message-ReadsBack :
      (room : ℕ) (m : UserEventMessage)
      → user_event_message_len f m < 4294967296
      → ReadsBack
          (encode_user_event_message f room m)
          (decode_user_event_message f)
          (user_event_message_len f m)
          m
  unfolding encode_user_event_message decode_user_event_message
  user_event_message-ReadsBack room m small z rest h =
      let decoded : record m { cc = not (to_ℕ m.cc == 0) } ≡ m =
        ap (λ b. record m { cc = b }) (flag_byte m.cc) in
      let r =
        decode_framed-encode_framed announced_check (user_event_message_len f m) room z rest
          (Codes-cat _ (Codes-byte (to_ℕ m.cc)) (
            Codes-cat _ (Codes-field (lamport_time f.varint) m.ltime c.varint) (
              Codes-cat _ (Codes-field f.text m.name c.text)
                (Codes-last _ (Codes-field f.bytes m.payload c.bytes)))))
          (omega arith) (omega arith) small h in
      (r.0, r.1 ∙ ap (read (user_event_message_len f m)) decoded)

  pub user_events-ReadsBack :
      (room : ℕ) (m : UserEvents)
      → user_events_len f m < 4294967296
      → length m.events < 4294967296
      → ReadsBack (encode_user_events f room m) (decode_user_events f) (user_events_len f m) m
  unfolding encode_user_events decode_user_events
  user_events-ReadsBack room m small few z rest h =
      let event : (e : UserEvent)
          → user_event_len f e ≤ 4294967295
          → Codes (encode_user_event f (user_event_len f e) e) (user_event_len f e)
              (nested (decode_user_event f)) e =
        λ e le. Codes-nested _ _ _ _ (user_event-ReadsBack (user_event_len f e) e (omega arith)) in
      decode_framed-encode_framed announced_check (user_events_len f m) room z rest
        (Codes-cat _ (Codes-field (lamport_time f.varint) m.ltime c.varint) (
          Codes-last _ (
            Codes-cat _ (Codes-u32 (length m.events) few)
              (Codes-many _ _ _ 4294967295 m.events event (omega arith)))))
        (omega arith) (omega arith) small h

  pub response-ReadsBack :
      (room : ℕ) (m : QueryResponseMessage I A)
      → response_len f m < 4294967296
      → m.id < 4294967296
      → ReadsBack (encode_response f room m) (decode_response f) (response_len f m) m
  unfolding encode_response decode_response
  response-ReadsBack room m small id z rest h =
      let decoded : record m { flags = flag_of (flag_bits m.flags) } ≡ m =
        ap (λ b. record m { flags = b }) (flag_of-flag_bits m.flags) in
      let r =
        decode_framed-encode_framed offset_check (response_len f m) room z rest
          (Codes-cat _ (Codes-field (lamport_time f.varint) m.ltime c.varint) (
            Codes-cat _ (Codes-need (omega arith) (Codes-u32 m.id id)) (
              Codes-cat _ (Codes-field f.node m.from c.node) (
                Codes-cat _
                  (Codes-need (omega arith) (Codes-u32 (flag_bits m.flags) (flag_bits_lt m.flags)))
                  (Codes-last _ (Codes-field f.bytes m.payload c.bytes))))))
          (omega arith) (omega arith) small h in
      (r.0, r.1 ∙ ap (read (response_len f m)) decoded)

  pub query-ReadsBack :
      (room : ℕ) (m : QueryMessage I A)
      → query_len f m < 4294967296
      → m.id < 4294967296
      → length m.filters < 4294967296
      → ReadsBack (encode_query f room m) (decode_query f) (query_len f m) m
  unfolding encode_query decode_query
  query-ReadsBack room m small id few z rest h =
      let decoded : record m { flags = flag_of (flag_bits m.flags) } ≡ m =
        ap (λ b. record m { flags = b }) (flag_of-flag_bits m.flags) in
      let r =
        decode_framed-encode_framed offset_check (query_len f m) room z rest
          (Codes-cat _ (Codes-field (lamport_time f.varint) m.ltime c.varint) (
            Codes-cat _ (Codes-need (omega arith) (Codes-u32 m.id id)) (
              Codes-cat _ (Codes-field f.node m.from c.node) (
                Codes-cat _ (Codes-need (omega arith) (Codes-u32 (length m.filters) few)) (
                  Codes-cat _
                    (Codes-many _ _ _ (query_len f m) m.filters
                      (λ v le. Codes-field f.bytes v c.bytes) (omega arith))
                    (Codes-cat _
                      (Codes-need (omega arith)
                        (Codes-u32 (flag_bits m.flags) (flag_bits_lt m.flags)))
                      (Codes-cat _ (Codes-need (omega arith) (Codes-byte m.relay_factor)) (
                        Codes-cat _ (Codes-field f.duration m.timeout c.duration) (
                          Codes-cat _ (Codes-field f.text m.name c.text)
                            (Codes-last _ (Codes-field f.bytes m.payload c.bytes)))))))))))
          (omega arith) (omega arith) small h in
      (r.0, r.1 ∙ ap (read (query_len f m)) decoded)

  pub filter_id-ReadsBack :
      (room : ℕ) (nodes : List I)
      → filter_len f (Filter.id nodes) < 4294967296
      → length nodes < 4294967296
      → ReadsBack
          (encode_filter f room (Filter.id nodes))
          (decode_filter f)
          (filter_len f (Filter.id nodes))
          (Filter.id nodes)
  unfolding encode_filter decode_filter decode_filter_body
  filter_id-ReadsBack room nodes small few z rest h =
      decode_framed-encode_framed filter_check (filter_len f (Filter.id nodes)) room z rest
        (Codes-cat _ (Codes-byte 0) (
          Codes-last _ (
            Codes-cat _ (Codes-u32 (length nodes) few) (
              Codes-many _ _ _ (filter_len f (Filter.id nodes)) nodes
                (λ v le. Codes-field f.id v c.id) (omega arith)))))
        (omega arith) (omega arith) small h

  pub filter_tag-ReadsBack :
      (room : ℕ) (tag expr : Bytes)
      → filter_len f (Filter.tag tag expr) < 4294967296
      → ReadsBack
          (encode_filter f room (Filter.tag tag expr))
          (decode_filter f)
          (filter_len f (Filter.tag tag expr))
          (Filter.tag tag expr)
  unfolding encode_filter decode_filter decode_filter_body
  filter_tag-ReadsBack room tag expr small z rest h =
      decode_framed-encode_framed filter_check (filter_len f (Filter.tag tag expr)) room z rest
        (Codes-cat _ (Codes-byte 1) (
          Codes-cat _ (Codes-field f.text tag c.text)
            (Codes-last _ (Codes-field f.text expr c.text))))
        (omega arith) (omega arith) small h
