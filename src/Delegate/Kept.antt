-- ===== src/Delegate/Kept.antt =====
-- What the member handlers leave alone (core/src/serf/base.rs): the buffers of events and queries.
use ruserf.Prelude.{
  ℕ, ◌≡◌, refl, Bool, ◌&&◌, Eq, ◌==◌, leb, lookup, arith, Option-cases, Bool-cases, inl, inr,
}
use ruserf.Types.{MemberStatus, MemberState, JoinMessage, LeaveMessage}
use ruserf.Serf.{Serf}
use ruserf.Clock.{witness}
use ruserf.Members.Base.{is_serf_alive, status_of, handle_prune, erase_node}
use ruserf.Members.Join.{handle_node_join_intent}
use ruserf.Members.Leave.{intend_as, handle_node_leave_intent}

module _ {I A : Type 0} where
  -- The buffers of events and of queries are the same.
  abbrev pub SameCores : Serf I A → Serf I A → Type 0
  SameCores s s' = (s'.event_core ≡ s.event_core) × (s'.query_core ≡ s.query_core)

module _ {I A : Type 0} ⦃e : Eq I⦄ where
  pub handle_node_join_intent-SameCores :
      (msg : JoinMessage I) (now : ℕ) (s : Serf I A)
      → SameCores s (handle_node_join_intent msg now s).0
  unfolding handle_node_join_intent
  handle_node_join_intent-SameCores msg now s = ground arith

  handle_prune-SameCores : (m : MemberState I A) (s : Serf I A) → SameCores s (handle_prune m s)
  unfolding handle_prune erase_node
  handle_prune-SameCores m s = (refl, refl)

  intend_as-SameCores :
      (st : MemberStatus) (id : I) (x : MemberState I A) (prune : Bool) (s : Serf I A)
      → SameCores s (intend_as st id x prune s).0
  unfolding intend_as handle_prune erase_node
  intend_as-SameCores MemberStatus.none id x prune s = ground arith
  intend_as-SameCores MemberStatus.alive id x prune s = ground arith
  intend_as-SameCores MemberStatus.leaving id x prune s = ground arith
  intend_as-SameCores MemberStatus.left id x prune s = ground arith
  intend_as-SameCores MemberStatus.failed id x prune s = ground arith

  pub handle_node_leave_intent-SameCores :
      (msg : LeaveMessage I) (now : ℕ) (s : Serf I A)
      → SameCores s (handle_node_leave_intent msg now s).0
  unfolding handle_node_leave_intent
  handle_node_leave_intent-SameCores msg now s =
      let s' : Serf I A = record s { clock = witness s.clock msg.ltime } in
      elim (Option-cases (lookup msg.id s.members.states)) [
        | inl absent ↦ rw (absent, handle_node_leave_intent) (refl, refl)
        | inr (x, found) ↦ elim (Bool-cases (leb msg.ltime x.status_time)) [
          | inl old ↦ rw (found, old, handle_node_leave_intent) (refl, refl)
          | inr new ↦ elim (Bool-cases (msg.id == s.local_node.id && is_serf_alive s.state)) [
            | inl own ↦ rw (found, new, own, handle_node_leave_intent) (refl, refl)
            | inr other ↦
                rw (found, new, other, handle_node_leave_intent)
                  (intend_as-SameCores (status_of x) msg.id (record x { status_time = msg.ltime })
                    msg.prune s')
          ]
        ]
      ]
