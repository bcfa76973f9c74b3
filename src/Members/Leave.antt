-- ===== src/Members/Leave.antt =====
-- `handle_node_leave` and `handle_node_leave_intent` of core/src/serf/base.rs. A refutation, which the
-- code spawns as a task that calls `broadcast_join`, goes to the log `refutations` with its time.
use ruserf.Prelude.{
  ℕ, Bool, true, false, ◌&&◌, none, some, [], ◌∷◌, ◌++◌, Eq, ◌==◌, leb, lookup, insert,
  if◌then◌else◌,
}
use ruserf.Types.{MemberStatus, MessageType, MemberEventType, MemberState, NodeState, LeaveMessage}
use ruserf.Serf.{Serf}
use ruserf.Members.Base.{
  is_serf_alive, id_of, status_of, with_status, member_event, upsert_intent, remove_old_member,
  handle_prune,
}
use ruserf.Clock.{witness}

module _ {I A : Type 0} ⦃e : Eq I⦄ where
  -- `handle_node_leave` on a known member, by its status.
  unfoldable pub leave_as : MemberStatus → I → MemberState I A → ℕ → Serf I A → Serf I A
  leave_as MemberStatus.leaving id member now s =
      let m = s.members in
      let gone = record (with_status MemberStatus.left member) { leave_time = some now } in
      record s {
        members = record m {
          states = insert id gone m.states;
          left_members = m.left_members ++ gone ∷ [];
        };
        events = s.events ++ member_event MemberEventType.leave gone.member ∷ [];
      }
  leave_as MemberStatus.alive id member now s =
      let m = s.members in
      let gone = record (with_status MemberStatus.failed member) { leave_time = some now } in
      record s {
        members = record m {
          states = insert id gone m.states;
          failed_members = m.failed_members ++ gone ∷ [];
        };
        events = s.events ++ member_event MemberEventType.failed gone.member ∷ [];
      }
  leave_as _ id member now s = s

  unfoldable pub handle_node_leave : NodeState I A → ℕ → Serf I A → Serf I A
  unfolding leave_as
  handle_node_leave n now s = elim (lookup n.node.id s.members.states) [
    | none ↦ s
    | some member ↦ leave_as (status_of member) n.node.id member now s
  ]

  -- The state transition of `handle_node_leave_intent`, by the member's status. `member` has the
  -- new status time, and `s` does not have it yet.
  unfoldable pub intend_as : MemberStatus → I → MemberState I A → Bool → Serf I A → Serf I A × Bool
  unfolding handle_prune remove_old_member
  intend_as MemberStatus.none id member prune s =
      let m = s.members in
      (record s { members = record m { states = insert id member m.states } }, false)
  intend_as MemberStatus.alive id member prune s =
      let m = s.members in
      let owned = with_status MemberStatus.leaving member in
      let s' = record s { members = record m { states = insert id owned m.states } } in
      (if prune then handle_prune owned s' else s', true)
  intend_as MemberStatus.leaving id member prune s =
      let m = s.members in
      let s' = record s { members = record m { states = insert id member m.states } } in
      (if prune then handle_prune member s' else s', true)
  intend_as MemberStatus.left id member prune s =
      let m = s.members in
      let s' = record s { members = record m { states = insert id member m.states } } in
      (if prune then handle_prune member s' else s', true)
  intend_as MemberStatus.failed id member prune s =
      let m = s.members in
      let owned = with_status MemberStatus.left member in
      let s' = record s {
        members = record m {
          states = insert id owned m.states;
          failed_members = remove_old_member m.failed_members (id_of owned);
          left_members = m.left_members ++ owned ∷ [];
        };
        events = s.events ++ member_event MemberEventType.leave owned.member ∷ [];
      } in
      (if prune then handle_prune owned s' else s', true)

  unfoldable pub handle_node_leave_intent : LeaveMessage I → ℕ → Serf I A → Serf I A × Bool
  unfolding upsert_intent intend_as witness
  handle_node_leave_intent msg now s0 =
      let s = record s0 { clock = witness s0.clock msg.ltime } in
      let m = s.members in
      elim (lookup msg.id m.states) [
        | none ↦
            let (intents, changed) =
              upsert_intent m.recent_intents msg.id MessageType.leave msg.ltime now in
            (record s { members = record m { recent_intents = intents } }, changed)
        | some member ↦
            if leb msg.ltime member.status_time
            then (s, false)
            else if msg.id == s.local_node.id && is_serf_alive s.state
            then (record s { refutations = s.refutations ++ s.clock ∷ [] }, false)
            else intend_as (status_of member) msg.id (record member { status_time = msg.ltime })
                msg.prune s
      ]
