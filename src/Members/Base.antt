-- ===== src/Members/Base.antt =====
-- The helpers of the member handlers in core/src/serf/base.rs: `recent_intent`, `upsert_intent`,
-- `reap_intents`, `remove_old_member`, `erase_node!` and `handle_prune`. A send on the event channel
-- appends to the log `events` (where a send fails the code only logs it). The wait of
-- `handle_prune` for a leaving node changes nothing, as the members' lock is held meanwhile.
use ruserf.Prelude.{
  ℕ, ◌-◌, Bool, true, false, not, ◌||◌, Option, none, some, List, [], ◌∷◌, ◌++◌, Eq, ◌==◌, ltb, leb,
  retain, lookup, insert, remove, if◌then◌else◌,
}
use ruserf.Types.{
  MemberStatus, MessageType, MemberEventType, SerfState, Member, MemberState, NodeIntent,
  CrateEvent,
}
use ruserf.Serf.{Serf, CoordCore}

abbrev pub message_type_beq : MessageType → MessageType → Bool
message_type_beq MessageType.leave MessageType.leave = true
message_type_beq MessageType.join MessageType.join = true
message_type_beq _ _ = false

abbrev pub is_left : MemberStatus → Bool
is_left MemberStatus.left = true
is_left _ = false

abbrev pub is_failed : MemberStatus → Bool
is_failed MemberStatus.failed = true
is_failed _ = false

abbrev pub is_alive : MemberStatus → Bool
is_alive MemberStatus.alive = true
is_alive _ = false

abbrev pub is_leaving : MemberStatus → Bool
is_leaving MemberStatus.leaving = true
is_leaving _ = false

abbrev pub is_serf_alive : SerfState → Bool
is_serf_alive SerfState.alive = true
is_serf_alive _ = false

module _ {I A : Type 0} where
  abbrev pub id_of : MemberState I A → I
  id_of m = m.member.node.id

  abbrev pub status_of : MemberState I A → MemberStatus
  status_of m = m.member.status

  abbrev pub with_status : MemberStatus → MemberState I A → MemberState I A
  with_status s m = record m { member = record m.member { status = s } }

  -- An event about one member.
  abbrev pub member_event : MemberEventType → Member I A → CrateEvent I A
  member_event ty m = CrateEvent.member (record { ty = ty; members = m ∷ [] })

  abbrev pub emit : CrateEvent I A → Serf I A → Serf I A
  emit e s = record s { events = s.events ++ e ∷ [] }

-- `recent_intent` and `upsert_intent`; the result of the latter says whether the table changed.
module _ {I : Type 0} ⦃e : Eq I⦄ where
  unfoldable pub recent_intent : List (I × NodeIntent) → I → MessageType → Option ℕ
  recent_intent intents id ty = elim (lookup id intents) [
    | none ↦ none
    | some intent ↦ if message_type_beq intent.ty ty then some intent.ltime else none
  ]

  unfoldable pub upsert_intent :
      List (I × NodeIntent) → I → MessageType → ℕ → ℕ → List (I × NodeIntent) × Bool
  upsert_intent intents node t ltime now =
      let fresh : NodeIntent = record { ty = t; wall_time = now; ltime = ltime } in
      elim (lookup node intents) [
        | none ↦ (insert node fresh intents, true)
        | some intent ↦
            if ltb intent.ltime ltime then (insert node fresh intents, true) else (intents, false)
      ]

  -- The status and its time of a new node: the more recent of a buffered join or leave intent.
  unfoldable pub first_status : List (I × NodeIntent) → I → MemberStatus × ℕ
  unfolding recent_intent
  first_status intents id = elim (recent_intent intents id MessageType.leave) [
    | some t ↦ (MemberStatus.leaving, t)
    | none ↦ elim (recent_intent intents id MessageType.join) [
      | some t ↦ (MemberStatus.alive, t)
      | none ↦ (MemberStatus.alive, 0)
    ]
  ]

  -- The part of `erase_node!` on the coordinate client and its cache.
  unfoldable pub forget_node : I → Option (CoordCore I) → Option (CoordCore I)
  forget_node id none = none
  forget_node id (some core) =
      some (record { samples = remove id core.samples; cache = remove id core.cache })

-- `reap_intents`
unfoldable pub reap_intents : {I : Type 0} → List (I × NodeIntent) → ℕ → ℕ → List (I × NodeIntent)
reap_intents intents now timeout = retain (λ x. leb (now - x.1.wall_time) timeout) intents

module _ {I A : Type 0} ⦃e : Eq I⦄ where
  unfoldable pub remove_old_member : List (MemberState I A) → I → List (MemberState I A)
  remove_old_member old id = retain (λ m. not (id_of m == id)) old

  -- `erase_node!`: takes a node completely out of the member list.
  unfoldable pub erase_node : I → MemberState I A → Serf I A → Serf I A
  unfolding forget_node
  erase_node id m s = record s {
    members = record s.members { states = remove id s.members.states };
    coord_core = forget_node id s.coord_core;
    events = s.events ++ member_event MemberEventType.reap m.member ∷ [];
  }

  unfoldable pub handle_prune : MemberState I A → Serf I A → Serf I A
  unfolding erase_node remove_old_member
  handle_prune m s =
      let id = id_of m in
      let old = s.members.left_members in
      let kept =
        if is_leaving (status_of m) || is_left (status_of m)
        then remove_old_member old id
        else old in
      erase_node id m (record s { members = record s.members { left_members = kept } })
