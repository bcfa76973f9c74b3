-- ===== src/Api/Lifecycle.antt =====
-- The states that a node goes through: `leave`, `shutdown` and the operations that look at the state
-- (core/src/serf/api.rs).
use ruserf.Prelude.{
  ◌≢◌, ℕ, ◌≡◌, ◌⊎◌, refl, ◌==◌, ◌∙◌, Bool, true, false, ◌&&◌, Eq, arith, Bool-cases, Option-cases,
  inl, inr, lookup, leb,
}
use ruserf.Api.Join.{join}
use ruserf.Types.{Node, SerfState, MemberStatus, MemberState, LeaveMessage}
use ruserf.Serf.{Serf, SerfMessage, Codec}
use ruserf.Clock.{increment, witness}
use ruserf.Members.Base.{status_of, is_serf_alive, handle_prune, erase_node}
use ruserf.Members.Leave.{intend_as, handle_node_leave_intent}
use ruserf.Api.{Error, Result, ok, err, Result-cases}
use ruserf.Api.Broadcast.{has_alive_members, broadcast}
use ruserf.Api.Leave.{
  tell_snapshot, become_left, announce_leave, leave_as, leave, close_shutdown, shutdown_as,
  shutdown,
}

state-cases :
    (s : SerfState)
    → ((s ≡ SerfState.alive) ⊎ (s ≡ SerfState.leaving))
      ⊎ ((s ≡ SerfState.left) ⊎ (s ≡ SerfState.shutdown))
state-cases SerfState.alive = inl (inl refl)
state-cases SerfState.leaving = inl (inr refl)
state-cases SerfState.left = inr (inl refl)
state-cases SerfState.shutdown = inr (inr refl)

module _ {I A : Type 0} ⦃e : Eq I⦄ where
  -- A leave intent does not change the node's own state.
  intend_as-state :
      (st : MemberStatus) (id : I) (x : MemberState I A) (prune : Bool) (s : Serf I A)
      → (intend_as st id x prune s).0.state ≡ s.state
  unfolding intend_as handle_prune erase_node
  intend_as-state MemberStatus.none id x prune s = ground arith
  intend_as-state MemberStatus.alive id x prune s = ground arith
  intend_as-state MemberStatus.leaving id x prune s = ground arith
  intend_as-state MemberStatus.left id x prune s = ground arith
  intend_as-state MemberStatus.failed id x prune s = ground arith

  handle_node_leave_intent-state :
      (msg : LeaveMessage I) (now : ℕ) (s : Serf I A)
      → (handle_node_leave_intent msg now s).0.state ≡ s.state
  unfolding handle_node_leave_intent
  handle_node_leave_intent-state msg now s =
      let s' : Serf I A = record s { clock = witness s.clock msg.ltime } in
      elim (Option-cases (lookup msg.id s.members.states)) [
        | inl absent ↦ rw (absent, handle_node_leave_intent) refl
        | inr (x, found) ↦ elim (Bool-cases (leb msg.ltime x.status_time)) [
          | inl old ↦ rw (found, old, handle_node_leave_intent) refl
          | inr new ↦ elim (Bool-cases (msg.id == s.local_node.id && is_serf_alive s.state)) [
            | inl own ↦ rw (found, new, own, handle_node_leave_intent) refl
            | inr other ↦
                rw (found, new, other, handle_node_leave_intent)
                  (intend_as-state (status_of x) msg.id (record x { status_time = msg.ltime })
                    msg.prune s')
          ]
        ]
      ]

module _ {I A : Type 0} ⦃e : Eq I⦄ (codec : Codec I A) where
  announce_leave-state :
      (M : Type 0) (now : ℕ) (s : Serf I A) → (announce_leave {M = M} codec now s).0.state ≡ s.state
  unfolding announce_leave broadcast
  announce_leave-state M now s =
      let msg : LeaveMessage I = record { ltime = s.clock; id = s.local_node.id; prune = false } in
      let ticked : Serf I A = record s {
        snapshot_left = tell_snapshot s.snapshot_left;
        clock = (increment s.clock).0;
      } in
      let handled = (handle_node_leave_intent msg now ticked).0 in
      let same = handle_node_leave_intent-state msg now ticked in
      elim (Bool-cases (has_alive_members handled)) [
        | inr alone ↦ rw (alone, announce_leave) same
        | inl others ↦ elim (Option-cases (codec.encode_message (SerfMessage.leave msg))) [
          | inl fails ↦ rw (others, fails, announce_leave, broadcast) same
          | inr (bytes, encoded) ↦ rw (others, encoded, announce_leave, broadcast) same
        ]
      ]

  -- The last step sets the state unless the node was shut down.
  abbrev pub LeftFrom : Serf I A → Serf I A → Type 0
  LeftFrom t s' =
      ((t.state ≡ SerfState.shutdown) × (s' ≡ t))
      ⊎ ((t.state ≢ SerfState.shutdown) × (s' ≡ record t { state = SerfState.left }))

  become_left-LeftFrom : (s : Serf I A) → LeftFrom s (become_left s)
  unfolding become_left
  become_left-LeftFrom s = elim (state-cases s.state) [
    | inl (inl at) ↦ inr (λ down. cc, rw (at, become_left) refl)
    | inl (inr at) ↦ inr (λ down. cc, rw (at, become_left) refl)
    | inr (inl at) ↦ inr (λ down. cc, rw (at, become_left) refl)
    | inr (inr at) ↦ inl (at, ground arith)
  ]

module _ {I A : Type 0} ⦃e : Eq I⦄ (codec : Codec I A) (M : Type 0)
    (meanwhile : Serf I A → Serf I A) (now : ℕ) where
  -- What `leave` makes of a node in a state.
  abbrev pub Leaves : SerfState → Serf I A → Serf I A × Result M (Unit {0}) → Type 0
  Leaves SerfState.alive s r =
      ((r.1 ≡ ok tt)
        × LeftFrom codec
            (meanwhile
              (announce_leave {M = M} codec now (record s { state = SerfState.leaving })).0)
            r.0)
      ⊎ ((x : Error M) × (r.1 ≡ err x) × (r.0.state ≡ SerfState.leaving))
  Leaves SerfState.left s r = r ≡ (s, ok tt)
  Leaves st s r = r ≡ (s, err (Error.bad_leave_status st))

  leave_as-Leaves :
      (st : SerfState) (s : Serf I A) → Leaves st s (leave_as codec st meanwhile now s)
  unfolding leave_as
  leave_as-Leaves SerfState.left s = refl
  leave_as-Leaves SerfState.leaving s = refl
  leave_as-Leaves SerfState.shutdown s = refl
  leave_as-Leaves SerfState.alive s =
      let started : Serf I A = record s { state = SerfState.leaving } in
      let state = announce_leave-state codec M now started in
      elim (Result-cases (announce_leave {M = M} codec now started).1) [
        | inl (t, fine) ↦ inl (
            rw (fine, leave_as)
              (
                refl,
                become_left-LeftFrom codec (meanwhile (announce_leave {M = M} codec now started).0),
              ))
        | inr (x, fails) ↦ inr (x, rw (fails, leave_as) refl, rw (fails, leave_as) state)
      ]

  -- By the state of the node: `leave` on a running node succeeds, and then, if the node was shut down
  -- while it waited, it changes nothing more, and else sets the state left; or it fails and leaves the
  -- node leaving. On a node that has left it is accepted, and on one that is leaving or shut down it is
  -- refused; neither changes anything.
  pub leave_cases : (s : Serf I A) → Leaves s.state s (leave codec meanwhile now s)
  unfolding leave
  leave_cases s = leave_as-Leaves s.state s

module _ {I A M : Type 0} (memberlist_shutdown : Serf I A → Serf I A × Result M (Unit {0}))
    (meanwhile : Serf I A → Serf I A)
    (stays : (t : Serf I A) → (memberlist_shutdown t).0.state ≡ t.state)
    (waits : (t : Serf I A) → (meanwhile t).state ≡ t.state) where
  close_shutdown-state :
      (r : Result M (Unit {0})) (s : Serf I A) → (close_shutdown meanwhile r s).0.state ≡ s.state
  unfolding close_shutdown
  close_shutdown-state (ok t) s = waits (record s { shutdown_closed = true })
  close_shutdown-state (err x) s = refl

  pub shutdown_as-state :
      (st : SerfState) (s : Serf I A)
      → s.state ≡ st
      → (shutdown_as st memberlist_shutdown meanwhile s).0.state ≡ SerfState.shutdown
  unfolding shutdown_as
  shutdown_as-state SerfState.shutdown s at = at
  shutdown_as-state SerfState.alive s at =
      close_shutdown-state _ _ ∙ stays (record s { state = SerfState.shutdown })
  shutdown_as-state SerfState.leaving s at =
      close_shutdown-state _ _ ∙ stays (record s { state = SerfState.shutdown })
  shutdown_as-state SerfState.left s at =
      close_shutdown-state _ _ ∙ stays (record s { state = SerfState.shutdown })

-- `shutdown` makes a node shut down for good, provided that memberlist and the background tasks do
-- not set its state: whether memberlist fails or not, the node is then shut down, `leave` and `join`
-- are refused, and another `shutdown` is accepted, and none of them changes anything.
pub shutdown_absorbs :
    {I A M : Type 0} ⦃e : Eq I⦄ (codec : Codec I A)
    (memberlist_shutdown : Serf I A → Serf I A × Result M (Unit {0}))
    (memberlist_join : Serf I A → Serf I A × Result M (Node I A)) (meanwhile : Serf I A → Serf I A)
    (ignore_old : Bool) (now : ℕ) (s : Serf I A)
    → ((t : Serf I A) → (memberlist_shutdown t).0.state ≡ t.state)
    → ((t : Serf I A) → (meanwhile t).state ≡ t.state)
    → let down = (shutdown memberlist_shutdown meanwhile s).0 in
      (down.state ≡ SerfState.shutdown)
      × (shutdown memberlist_shutdown meanwhile down ≡ (down, ok tt))
      × (leave {M = M} codec meanwhile now down
          ≡ (down, err (Error.bad_leave_status SerfState.shutdown)))
      × (join codec memberlist_join ignore_old now down
          ≡ (down, err (Error.bad_join_status SerfState.shutdown)))
unfolding shutdown leave join leave_as shutdown_as
shutdown_absorbs codec memberlist_shutdown memberlist_join meanwhile ignore_old now s stays waits =
    let down = (shutdown memberlist_shutdown meanwhile s).0 in
    let at : down.state ≡ SerfState.shutdown =
      shutdown_as-state memberlist_shutdown meanwhile stays waits s.state s refl in
    (at, rw at refl, rw at refl, rw at refl)
