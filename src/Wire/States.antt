-- ===== src/Wire/States.antt =====
-- The formats of tags, of a member and of a push/pull message: tags.rs, member.rs and push_pull.rs of
-- types/src. An `IndexMap` or `IndexSet` keeps the order of insertion, as the lists do.
use ruserf.Prelude.{
  ℕ, ◌+◌, Bool, false, Option, none, some, List, [], ◌∷◌, ◌++◌, ◌==◌, Eq, nat_eq, list_eq, length,
  insert, contains, if◌then◌else◌,
}
use ruserf.Types.{Bytes, Tags, MemberStatus, Member, UserEvents, PushPullMessage}
use ruserf.Wire.{
  Parser, ◌>>=◌, return, done, fails, panics, field, read_u32, need, ◌⧺◌, Message, Check,
  decode_framed, encode_framed, nested, read_many, write_many, sum_len,
}
use ruserf.Wire.Messages.{
  lamport_time, Formats, byte, u32, write_list, read_list, announced_check, user_events_len,
  encode_user_events, decode_user_events,
}

-- A map from its entries in order, and a set.
unfoldable pub collect : {K V : Type 0} ⦃q : Eq K⦄ → List (K × V) → List (K × V) → List (K × V)
collect table [] = table
collect table (e ∷ es) = collect (insert e.0 e.1 table) es

unfoldable pub collect_set : {K : Type 0} ⦃q : Eq K⦄ → List K → List K → List K
collect_set set [] = set
collect_set set (k ∷ ks) = collect_set (if contains k set then set else set ++ k ∷ []) ks

abbrev pub tags_check : Check
tags_check = record { least = 8; slack = 0; announced = false }

-- `MemberStatus as u8`, and `MemberStatus::try_from`.
abbrev pub status_byte : MemberStatus → ℕ
status_byte MemberStatus.none = 0
status_byte MemberStatus.alive = 1
status_byte MemberStatus.leaving = 2
status_byte MemberStatus.left = 3
status_byte MemberStatus.failed = 4

unfoldable pub read_status : Parser MemberStatus
read_status [] = panics
read_status (b ∷ rest) =
    if b == 0
    then done MemberStatus.none rest
    else if b == 1
    then done MemberStatus.alive rest
    else if b == 2
    then done MemberStatus.leaving rest
    else if b == 3
    then done MemberStatus.left rest
    else if b == 4
    then done MemberStatus.failed rest
    else fails

-- A version byte that is known.
unfoldable pub read_version : (ℕ → Bool) → Parser ℕ
read_version known [] = panics
read_version known (b ∷ rest) = if known b then done b rest else fails

-- `ProtocolVersion::try_from` and `DelegateVersion::try_from`: there is version 1.
abbrev pub is_v1 : ℕ → Bool
is_v1 b = b == 1

-- memberlist's own versions.
pub record Versions : Type 0 where
  pub protocol : ℕ → Bool
  pub delegate : ℕ → Bool

module _ {I A : Type 0} (f : Formats I A) where
  abbrev pub tag_len : Bytes × Bytes → ℕ
  tag_len e = f.text.encoded_len e.0 + f.text.encoded_len e.1

  abbrev pub tags_len : Tags → ℕ
  tags_len tags = 4 + 4 + sum_len tag_len tags

  unfoldable pub encode_tags : ℕ → Tags → Option Bytes
  unfolding encode_framed write_many
  encode_tags room tags =
      encode_framed (tags_len tags) room
        (write_list (λ e. f.text.encode e.0 ⧺ f.text.encode e.1) tags)

  unfoldable pub decode_tags : Bytes → Message Tags
  unfolding decode_framed field read_many collect
  decode_tags = decode_framed tags_check (
      read_list (field f.text >>= λ key. field f.text >>= λ value. return (key, value))
      >>= λ entries. return (collect [] entries))

  abbrev pub member_len : Member I A → ℕ
  member_len m = 4 + f.node.encoded_len m.node + tags_len m.tags + 1 + 1 + 1 + 1 + 1

  unfoldable pub encode_member : ℕ → Member I A → Option Bytes
  unfolding encode_framed encode_tags
  encode_member room m = encode_framed (member_len m) room (
      f.node.encode m.node
      ⧺ encode_tags (tags_len m.tags) m.tags
      ⧺ byte (status_byte m.status)
      ⧺ byte m.memberlist_protocol_version
      ⧺ byte m.memberlist_delegate_version
      ⧺ byte m.protocol_version
      ⧺ byte m.delegate_version)

  unfoldable pub decode_member : Versions → Bytes → Message (Member I A)
  unfolding decode_framed field nested decode_tags read_status read_version
  decode_member known = decode_framed announced_check (
      field f.node >>= λ node. nested decode_tags >>= λ tags. need 5 (
        read_status >>= λ status. read_version known.protocol >>= λ memberlist_protocol.
        read_version known.delegate >>= λ memberlist_delegate. read_version is_v1 >>= λ protocol.
        read_version is_v1 >>= λ delegate. return (record {
          node = node;
          tags = tags;
          status = status;
          memberlist_protocol_version = memberlist_protocol;
          memberlist_delegate_version = memberlist_delegate;
          protocol_version = protocol;
          delegate_version = delegate;
        })))

  abbrev pub status_len : I × ℕ → ℕ
  status_len e = f.id.encoded_len e.0 + (lamport_time f.varint).encoded_len e.1

  abbrev pub slot_len : Option UserEvents → ℕ
  slot_len none = 1
  slot_len (some e) = 1 + user_events_len f e

  unfoldable pub encode_slot : Option UserEvents → Option Bytes
  unfolding encode_user_events
  encode_slot none = byte 0
  encode_slot (some e) = byte 1 ⧺ encode_user_events f (user_events_len f e) e

  -- Any other byte than 1 is no events.
  unfoldable pub decode_slot : Parser (Option UserEvents)
  unfolding nested decode_user_events
  decode_slot [] = panics
  decode_slot (b ∷ rest) =
      if b == 1
      then (nested (decode_user_events f) >>= λ e. return (some e)) rest
      else done none rest

  abbrev pub push_pull_len : PushPullMessage I → ℕ
  push_pull_len m =
      4
      + (lamport_time f.varint).encoded_len m.ltime
      + 4
      + sum_len status_len m.status_ltimes
      + 4
      + sum_len f.id.encoded_len m.left_members
      + (lamport_time f.varint).encoded_len m.event_ltime
      + 4
      + sum_len slot_len m.events
      + (lamport_time f.varint).encoded_len m.query_ltime

  unfoldable pub encode_push_pull : ℕ → PushPullMessage I → Option Bytes
  unfolding encode_framed write_many encode_slot
  encode_push_pull room m = encode_framed (push_pull_len m) room (
      (lamport_time f.varint).encode m.ltime
      ⧺ u32 (length m.status_ltimes)
      ⧺ write_many (λ e. f.id.encode e.0 ⧺ (lamport_time f.varint).encode e.1) m.status_ltimes
      ⧺ u32 (length m.left_members)
      ⧺ write_many f.id.encode m.left_members
      ⧺ (lamport_time f.varint).encode m.event_ltime
      ⧺ u32 (length m.events)
      ⧺ write_many encode_slot m.events
      ⧺ (lamport_time f.varint).encode m.query_ltime)

  unfoldable pub decode_push_pull : ⦃q : Eq I⦄ → Bytes → Message (PushPullMessage I)
  unfolding decode_framed field read_many decode_slot collect collect_set
  decode_push_pull = decode_framed announced_check (
      field (lamport_time f.varint) >>= λ ltime. read_u32 >>= λ n.
      read_many n
        (field f.id >>= λ node. field (lamport_time f.varint) >>= λ time. return (node, time))
      >>= λ entries. read_u32 >>= λ n. read_many n (field f.id) >>= λ left.
          field (lamport_time f.varint) >>= λ event_ltime. read_u32 >>= λ n.
          read_many n decode_slot >>= λ events. field (lamport_time f.varint) >>= λ query_ltime.
          return (record {
            ltime = ltime;
            status_ltimes = collect [] entries;
            left_members = collect_set [] left;
            event_ltime = event_ltime;
            events = events;
            query_ltime = query_ltime;
          }))
