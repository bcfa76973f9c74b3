-- ===== src/Members/Kept.antt =====
-- Every handler of core/src/serf/base.rs keeps the members well formed.
use ruserf.Prelude.{
  ℕ, ◌≡◌, refl, Bool, true, false, ◌||◌, none, some, List, Eq, ◌==◌, lookup, insert, lookup-insert,
  arith, if◌then◌else◌, Option-cases, Bool-cases, leb, ◌&&◌, inl, inr,
}
use ruserf.Types.{Tags, NodeState, MemberStatus, MemberState, JoinMessage, LeaveMessage}
use ruserf.Members.Base.{
  is_left, is_failed, id_of, status_of, with_status, handle_prune, is_leaving, is_serf_alive,
}
use ruserf.Members.Join.{node_tags, rejoin, first_join, handle_node_join, handle_node_join_intent}
use ruserf.Members.Leave.{leave_as, handle_node_leave, intend_as, handle_node_leave_intent}
use ruserf.Members.Update.{handle_node_update}
use ruserf.Serf.{Serf, Codec}
use ruserf.Members.Invariant.{IsValid}
use ruserf.Members.Moves.{
  update-IsValid, to_left-IsValid, to_failed-IsValid, to_up-IsValid, intents-IsValid,
  failed_to_left-IsValid, pruned-IsValid,
}

module _ {I A : Type 0} ⦃e : Eq I⦄ where
  rejoin-IsValid :
      (n : NodeState I A) (tags : Tags) (old : MemberState I A) (s : Serf I A)
      → lookup n.node.id s.members.states ≡ some old
      → IsValid s.members
      → IsValid (rejoin n tags old s).members
  unfolding rejoin
  rejoin-IsValid n tags old s h v =
      elim (Bool-cases (is_failed (status_of old) || is_left (status_of old))) [
        | inl back ↦ rw back (to_up-IsValid n.node.id _ s.members v (refl, refl, refl, refl))
        | inr up ↦ rw up (update-IsValid n.node.id _ s.members v (ground (arith, v.fits n.node.id)))
      ]

  first_join-IsValid :
      (n : NodeState I A) (tags : Tags) (s : Serf I A)
      → lookup n.node.id s.members.states ≡ none
      → IsValid s.members
      → IsValid (first_join n tags s).members
  unfolding first_join
  first_join-IsValid n tags s absent v =
      update-IsValid n.node.id _ s.members v (ground (arith, v.fits n.node.id))

  -- A join that memberlist reports keeps the members well formed.
  pub handle_node_join-IsValid :
      (c : Codec I A) (n : NodeState I A) (s : Serf I A)
      → IsValid s.members
      → IsValid (handle_node_join c n s).members
  unfolding handle_node_join
  handle_node_join-IsValid c n s v = elim (Option-cases (node_tags c n)) [
    | inl bad ↦ rw (bad, handle_node_join) v
    | inr (tags, good) ↦ elim (Option-cases (lookup n.node.id s.members.states)) [
      | inl absent ↦ rw (good, absent, handle_node_join) (first_join-IsValid n tags s absent v)
      | inr (old, found) ↦ rw (good, found, handle_node_join) (rejoin-IsValid n tags old s found v)
    ]
  ]

  leave_as-IsValid :
      (st : MemberStatus) (id : I) (x : MemberState I A) (now : ℕ) (s : Serf I A)
      → status_of x ≡ st
      → lookup id s.members.states ≡ some x
      → IsValid s.members
      → IsValid (leave_as st id x now s).members
  unfolding leave_as
  leave_as-IsValid MemberStatus.leaving id x now s q h v =
      to_left-IsValid id _ s.members v (ground (arith, v.fits id)) (ground (arith, v.fits id))
        (ground (arith, v.fits id))
  leave_as-IsValid MemberStatus.alive id x now s q h v =
      to_failed-IsValid id _ s.members v (ground (arith, v.fits id)) (ground (arith, v.fits id))
        (ground (arith, v.fits id))
  leave_as-IsValid _ id x now s q h v = v

  -- A leave or failure that memberlist reports keeps the members well formed.
  pub handle_node_leave-IsValid :
      (n : NodeState I A) (now : ℕ) (s : Serf I A)
      → IsValid s.members
      → IsValid (handle_node_leave n now s).members
  unfolding handle_node_leave
  handle_node_leave-IsValid n now s v = elim (Option-cases (lookup n.node.id s.members.states)) [
    | inl absent ↦ rw (absent, handle_node_leave) v
    | inr (x, found) ↦
        rw (found, handle_node_leave)
          (leave_as-IsValid (status_of x) n.node.id x now s refl found v)
  ]

  -- A join intent keeps the members well formed.
  pub handle_node_join_intent-IsValid :
      (msg : JoinMessage I) (now : ℕ) (s : Serf I A)
      → IsValid s.members
      → IsValid (handle_node_join_intent msg now s).0.members
  unfolding handle_node_join_intent
  handle_node_join_intent-IsValid msg now s v =
      elim (Option-cases (lookup msg.id s.members.states)) [
        | inl absent ↦ rw (absent, handle_node_join_intent) (intents-IsValid s.members _ v)
        | inr (x, found) ↦ elim (Bool-cases (leb msg.ltime x.status_time)) [
          | inl old ↦ rw (found, old, handle_node_join_intent) v
          | inr newer ↦
              rw (found, newer, handle_node_join_intent)
                (update-IsValid msg.id _ s.members v (ground (arith, v.fits msg.id)))
        ]
      ]

  handle_prune-IsValid :
      (x : MemberState I A) (id : I) (s : Serf I A)
      → IsValid s.members
      → lookup id s.members.states ≡ some x
      → (is_leaving (status_of x) || is_left (status_of x)) ≡ true
      → IsValid (handle_prune x s).members
  unfolding handle_prune
  handle_prune-IsValid x id s v h gone =
      let same : id_of x ≡ id = ground (arith, v.fits id) in
      rw gone (pruned-IsValid (id_of x) x s.members v (cc) (ground arith))

  prune_if-IsValid :
      (x : MemberState I A) (id : I) (s : Serf I A) (prune : Bool)
      → IsValid s.members
      → lookup id s.members.states ≡ some x
      → (is_leaving (status_of x) || is_left (status_of x)) ≡ true
      → IsValid (if prune then handle_prune x s else s).members
  prune_if-IsValid x id s true v h gone = handle_prune-IsValid x id s v h gone
  prune_if-IsValid x id s false v h gone = v

  lookup-insert_self :
      (id : I) (x : MemberState I A) (m : List (I × MemberState I A))
      → lookup id (insert id x m) ≡ some x
  lookup-insert_self id x m = ground (arith, lookup-insert id id x m, e.beq_iff id id)

  intend_as-IsValid :
      (st : MemberStatus) (id : I) (x y : MemberState I A) (prune : Bool) (s : Serf I A)
      → status_of x ≡ st
      → (x.member ≡ y.member) × (x.leave_time ≡ y.leave_time)
      → lookup id s.members.states ≡ some y
      → IsValid s.members
      → IsValid (intend_as st id x prune s).0.members
  unfolding intend_as
  intend_as-IsValid MemberStatus.none id x y prune s q same h v =
      update-IsValid id x s.members v (ground (arith, v.fits id))
  intend_as-IsValid MemberStatus.alive id x y prune s q same h v =
      let x' = with_status MemberStatus.leaving x in
      prune_if-IsValid x' id
        (record s { members = record s.members { states = insert id x' s.members.states } }) prune
        (update-IsValid id x' s.members v (ground (arith, v.fits id)))
        (lookup-insert_self id x' s.members.states) refl
  intend_as-IsValid MemberStatus.leaving id x y prune s q same h v =
      prune_if-IsValid x id
        (record s { members = record s.members { states = insert id x s.members.states } }) prune
        (update-IsValid id x s.members v (ground (arith, v.fits id)))
        (lookup-insert_self id x s.members.states) (ground arith)
  intend_as-IsValid MemberStatus.left id x y prune s q same h v =
      prune_if-IsValid x id
        (record s { members = record s.members { states = insert id x s.members.states } }) prune
        (update-IsValid id x s.members v (ground (arith, v.fits id)))
        (lookup-insert_self id x s.members.states) (ground arith)
  intend_as-IsValid MemberStatus.failed id x y prune s q same h v =
      let x' = with_status MemberStatus.left x in
      prune_if-IsValid x' id _ prune
        (failed_to_left-IsValid id x' s.members v (ground (arith, v.fits id))
          (ground (arith, v.fits id)))
        (lookup-insert_self id x' s.members.states) refl

  -- A leave intent, with or without prune, keeps the members well formed.
  pub handle_node_leave_intent-IsValid :
      (msg : LeaveMessage I) (now : ℕ) (s : Serf I A)
      → IsValid s.members
      → IsValid (handle_node_leave_intent msg now s).0.members
  unfolding handle_node_leave_intent
  handle_node_leave_intent-IsValid msg now s v =
      elim (Option-cases (lookup msg.id s.members.states)) [
        | inl absent ↦ rw (absent, handle_node_leave_intent) (intents-IsValid s.members _ v)
        | inr (x, found) ↦ elim (Bool-cases (leb msg.ltime x.status_time)) [
          | inl old ↦ rw (found, old, handle_node_leave_intent) v
          | inr newer ↦ elim (Bool-cases (msg.id == s.local_node.id && is_serf_alive s.state)) [
            | inl refute ↦ rw (found, newer, refute, handle_node_leave_intent) v
            | inr go ↦
                rw (found, newer, go, handle_node_leave_intent)
                  (intend_as-IsValid (status_of x) msg.id _ x msg.prune _ refl (refl, refl) found v)
          ]
        ]
      ]

  -- A metadata update keeps the members well formed.
  pub handle_node_update-IsValid :
      (c : Codec I A) (n : NodeState I A) (s : Serf I A)
      → IsValid s.members
      → IsValid (handle_node_update c n s).members
  unfolding handle_node_update
  handle_node_update-IsValid c n s v = elim (Option-cases (c.decode_tags n.meta)) [
    | inl bad ↦ rw (bad, handle_node_update) v
    | inr (tags, good) ↦ elim (Option-cases (lookup n.node.id s.members.states)) [
      | inl absent ↦ rw (good, absent, handle_node_update) v
      | inr (x, found) ↦
          rw (good, found, handle_node_update)
            (update-IsValid n.node.id _ s.members v (ground (arith, v.fits n.node.id)))
    ]
  ]
