-- ===== src/Members/Update.antt =====
-- `handle_node_update` of core/src/serf/base.rs.
use ruserf.Prelude.{none, some, [], ◌∷◌, ◌++◌, Eq, lookup, insert}
use ruserf.Types.{MemberEventType, Member, NodeState}
use ruserf.Serf.{Serf, Codec}
use ruserf.Members.Base.{status_of, member_event}

module _ {I A : Type 0} ⦃e : Eq I⦄ where
  unfoldable pub handle_node_update : Codec I A → NodeState I A → Serf I A → Serf I A
  handle_node_update c n s = elim (c.decode_tags n.meta) [
    | none ↦ s
    | some tags ↦ elim (lookup n.node.id s.members.states) [
      | none ↦ s
      | some ms ↦
          let updated : Member I A = record {
            node = n.node;
            tags = tags;
            status = status_of ms;
            memberlist_protocol_version = 1;
            memberlist_delegate_version = 1;
            protocol_version = 1;
            delegate_version = 1;
          } in
          record s {
            members = record s.members {
              states = insert n.node.id (record ms { member = updated }) s.members.states;
            };
            events = s.events ++ member_event MemberEventType.update updated ∷ [];
          }
    ]
  ]
