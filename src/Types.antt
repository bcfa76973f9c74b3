-- ===== src/Types.antt =====
-- The data that the components share: types/src (clock, member, join, leave, user_event, query,
-- push_pull, message) and core/src/types, core/src/event.rs, core/src/serf.rs. A Lamport time is
-- the u64 itself, text and payloads are lists of bytes, an epoch is a number of time units, and
-- an f64 is kept as its bit pattern (no arithmetic is done on it here).
use ruserf.Prelude.{
  ℕ, Bool, true, Option, List, ◌≡◌, ◌↔◌, ◌&&◌, Eq, ◌==◌, arith, nat_eq, list_eq, list_beq_iff,
}

abbrev pub Bytes : Type 0
Bytes = List ℕ

-- `IndexMap<SmolStr, SmolStr>` of types/src/tags.rs.
abbrev pub Tags : Type 0
Tags = List (Bytes × Bytes)

pub data MemberStatus : Type 0 where
  none alive leaving left failed : MemberStatus

pub data MessageType : Type 0 where
  leave join push_pull user_event query query_response conflict_response relay key_request
        key_response :
      MessageType

pub data MemberEventType : Type 0 where
  join leave failed update reap : MemberEventType

pub data SerfState : Type 0 where
  alive leaving left shutdown : SerfState

pub record Node (I A : Type 0) : Type 0 where
  pub id : I
  pub address : A

pub record Member (I A : Type 0) : Type 0 where
  pub node : Node I A
  pub tags : Tags
  pub status : MemberStatus
  pub memberlist_protocol_version : ℕ
  pub memberlist_delegate_version : ℕ
  pub protocol_version : ℕ
  pub delegate_version : ℕ

pub record MemberState (I A : Type 0) : Type 0 where
  pub member : Member I A
  pub status_time : ℕ
  pub leave_time : Option ℕ

pub record NodeIntent : Type 0 where
  pub ty : MessageType
  pub wall_time : ℕ
  pub ltime : ℕ

pub record Members (I A : Type 0) : Type 0 where
  pub states : List (I × MemberState I A)
  pub recent_intents : List (I × NodeIntent)
  pub left_members : List (MemberState I A)
  pub failed_members : List (MemberState I A)

-- What memberlist tells of a node; `has_left` is `state() == State::Left`.
pub record NodeState (I A : Type 0) : Type 0 where
  pub node : Node I A
  pub meta : Bytes
  pub has_left : Bool

pub record JoinMessage (I : Type 0) : Type 0 where
  pub ltime : ℕ
  pub id : I

pub record LeaveMessage (I : Type 0) : Type 0 where
  pub ltime : ℕ
  pub id : I
  pub prune : Bool

pub record UserEventMessage : Type 0 where
  pub ltime : ℕ
  pub name : Bytes
  pub payload : Bytes
  pub cc : Bool

pub record UserEvent : Type 0 where
  pub name : Bytes
  pub payload : Bytes

pub record UserEvents : Type 0 where
  pub ltime : ℕ
  pub events : List UserEvent

pub record Queries : Type 0 where
  pub ltime : ℕ
  pub query_ids : List ℕ

-- The two bits of `QueryFlag` that the code tests.
pub record QueryFlag : Type 0 where
  pub ack : Bool
  pub no_broadcast : Bool

pub record QueryMessage (I A : Type 0) : Type 0 where
  pub ltime : ℕ
  pub id : ℕ
  pub from : Node I A
  pub filters : List Bytes
  pub flags : QueryFlag
  pub relay_factor : ℕ
  pub timeout : ℕ
  pub name : Bytes
  pub payload : Bytes

pub record QueryResponseMessage (I A : Type 0) : Type 0 where
  pub ltime : ℕ
  pub id : ℕ
  pub from : Node I A
  pub flags : QueryFlag
  pub payload : Bytes

pub record PushPullMessage (I : Type 0) : Type 0 where
  pub ltime : ℕ
  pub status_ltimes : List (I × ℕ)
  pub left_members : List I
  pub event_ltime : ℕ
  pub events : List (Option UserEvents)
  pub query_ltime : ℕ

pub record MemberEvent (I A : Type 0) : Type 0 where
  pub ty : MemberEventType
  pub members : List (Member I A)

-- `InternalQueryEvent`.
pub data InternalQueryEvent (I : Type 0) : Type 0 where
  ping : InternalQueryEvent I
  conflict : I → InternalQueryEvent I
  install_key use_key remove_key list_key : InternalQueryEvent I

pub record QueryEvent (I A : Type 0) : Type 0 where
  pub ltime : ℕ
  pub name : Bytes
  pub payload : Bytes
  pub query_timeout : ℕ
  pub id : ℕ
  pub from : Node I A
  pub relay_factor : ℕ

pub data CrateEvent (I A : Type 0) : Type 0 where
  member : MemberEvent I A → CrateEvent I A
  user : UserEventMessage → CrateEvent I A
  query : QueryEvent I A → CrateEvent I A
  internal_query : InternalQueryEvent I → QueryEvent I A → CrateEvent I A

module _ {I A : Type 0} ⦃i : Eq I⦄ ⦃a : Eq A⦄ where
  abbrev pub node_beq : Node I A → Node I A → Bool
  node_beq m n = m.id == n.id && m.address == n.address

  pub node_beq_iff : (m n : Node I A) → (node_beq m n ≡ true) ↔ (m ≡ n)
  node_beq_iff m n = ground (arith, i.beq_iff m.id n.id, a.beq_iff m.address n.address)

  instance abbrev pub node_eq : Eq (Node I A)
  node_eq = record { beq = node_beq; beq_iff = node_beq_iff }

-- `#[derive(PartialEq)]` of `UserEvent`.
abbrev pub user_event_beq : UserEvent → UserEvent → Bool
user_event_beq x y = x.name == y.name && x.payload == y.payload

pub user_event_beq_iff : (x y : UserEvent) → (user_event_beq x y ≡ true) ↔ (x ≡ y)
user_event_beq_iff x y =
    ground (arith, list_beq_iff x.name y.name, list_beq_iff x.payload y.payload)

instance abbrev pub user_event_eq : Eq UserEvent
user_event_eq = record { beq = user_event_beq; beq_iff = user_event_beq_iff }
