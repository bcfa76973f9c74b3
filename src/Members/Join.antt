-- ===== src/Members/Join.antt =====
-- `handle_node_join` and `handle_node_join_intent` of core/src/serf/base.rs. The members' lock makes
-- each handler one step; `now` is what `Epoch::now` returns.
use ruserf.Prelude.{
  ℕ, Bool, true, false, ◌||◌, Option, none, some, [], ◌∷◌, ◌++◌, Eq, leb, lookup, insert,
  if◌then◌else◌,
}
use ruserf.Types.{
  Tags, MemberStatus, MessageType, MemberEventType, MemberState, NodeState, JoinMessage,
}
use ruserf.Serf.{Serf, Codec}
use ruserf.Members.Base.{
  is_left, is_failed, is_leaving, status_of, member_event, upsert_intent, first_status,
  remove_old_member,
}
use ruserf.Clock.{witness}

module _ {I A : Type 0} ⦃e : Eq I⦄ where
  -- The tags of a node's meta data: none at all if it is empty.
  unfoldable pub node_tags : Codec I A → NodeState I A → Option Tags
  node_tags c n = elim n.meta [ [] ↦ some [] | _ ∷ _ ↦ c.decode_tags n.meta ]

  -- `handle_node_join` on a node that is known.
  unfoldable pub rejoin : NodeState I A → Tags → MemberState I A → Serf I A → Serf I A
  unfolding remove_old_member
  rejoin n tags old s =
      let id = n.node.id in
      let back = is_failed (status_of old) || is_left (status_of old) in
      let m = s.members in
      let joined : MemberState I A = record {
        member = record old.member { node = n.node; tags = tags; status = MemberStatus.alive };
        status_time = old.status_time;
        leave_time = none;
      } in
      record s {
        members = record m {
          states = insert id joined m.states;
          failed_members = if back then remove_old_member m.failed_members id else m.failed_members;
          left_members = if back then remove_old_member m.left_members id else m.left_members;
        };
        events = s.events ++ member_event MemberEventType.join joined.member ∷ [];
      }

  -- `handle_node_join` on a node that is not known.
  unfoldable pub first_join : NodeState I A → Tags → Serf I A → Serf I A
  unfolding first_status
  first_join n tags s =
      let (status, status_time) = first_status s.members.recent_intents n.node.id in
      let ms : MemberState I A = record {
        member = record {
          node = n.node;
          tags = tags;
          status = status;
          memberlist_protocol_version = s.opts.memberlist_protocol_version;
          memberlist_delegate_version = s.opts.memberlist_delegate_version;
          protocol_version = s.opts.protocol_version;
          delegate_version = s.opts.delegate_version;
        };
        status_time = status_time;
        leave_time = none;
      } in
      record s {
        members = record s.members { states = insert n.node.id ms s.members.states };
        events = s.events ++ member_event MemberEventType.join ms.member ∷ [];
      }

  unfoldable pub handle_node_join : Codec I A → NodeState I A → Serf I A → Serf I A
  unfolding node_tags rejoin first_join
  handle_node_join c n s = elim (node_tags c n) [
    | none ↦ s
    | some tags ↦ elim (lookup n.node.id s.members.states) [
      | some old ↦ rejoin n tags old s
      | none ↦ first_join n tags s
    ]
  ]

  -- The result says whether to rebroadcast, here and below.
  unfoldable pub handle_node_join_intent : JoinMessage I → ℕ → Serf I A → Serf I A × Bool
  unfolding upsert_intent witness
  handle_node_join_intent msg now s0 =
      let s = record s0 { clock = witness s0.clock msg.ltime } in
      let m = s.members in
      elim (lookup msg.id m.states) [
        | some member ↦ if leb msg.ltime member.status_time then (s, false) else (
          record s {
            members = record m {
              states =
                  insert msg.id
                    (record member {
                      member = record member.member {
                        status =
                            if is_leaving (status_of member)
                            then MemberStatus.alive
                            else status_of member;
                      };
                      status_time = msg.ltime;
                    })
                    m.states;
            };
          },
          true,
        )
        | none ↦
            let (intents, changed) =
              upsert_intent m.recent_intents msg.id MessageType.join msg.ltime now in
            (record s { members = record m { recent_intents = intents } }, changed)
      ]
