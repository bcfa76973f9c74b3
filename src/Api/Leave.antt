-- ===== src/Api/Leave.antt =====
-- `leave` and `shutdown` of core/src/serf/api.rs. What happens while they wait for memberlist, the
-- broadcast and the timers is a parameter: any of the other operations and handlers may run then.
use ruserf.Prelude.{ℕ, Bool, true, false, Option, none, some, Eq, if◌then◌else◌}
use ruserf.Types.{SerfState, LeaveMessage}
use ruserf.Serf.{Serf, SerfMessage, Codec}
use ruserf.Clock.{increment}
use ruserf.Members.Leave.{handle_node_leave_intent}
use ruserf.Api.{Error, Result, ok, err}
use ruserf.Api.Broadcast.{has_alive_members, broadcast}

-- The message to the snapshot, if there is one.
abbrev pub tell_snapshot : Option Bool → Option Bool
tell_snapshot none = none
tell_snapshot (some told) = some true

module _ {I A : Type 0} where
  -- "Transition to Left only if we not already shutdown".
  unfoldable pub become_left : Serf I A → Serf I A
  become_left s = elim s.state [ SerfState.shutdown ↦ s | _ ↦ record s { state = SerfState.left } ]

module _ {I A M : Type 0} ⦃e : Eq I⦄ (codec : Codec I A) where
  -- From the message to the snapshot to the broadcast.
  unfoldable pub announce_leave : ℕ → Serf I A → Serf I A × Result M (Unit {0})
  unfolding increment handle_node_leave_intent has_alive_members broadcast
  announce_leave now s =
      let msg : LeaveMessage I = record { ltime = s.clock; id = s.local_node.id; prune = false } in
      let ticked : Serf I A = record s {
        snapshot_left = tell_snapshot s.snapshot_left;
        clock = (increment s.clock).0;
      } in
      let handled = (handle_node_leave_intent msg now ticked).0 in
      if has_alive_members handled
      then broadcast codec (SerfMessage.leave msg) handled
      else (handled, ok tt)

  -- `leave` by the state of the node.
  unfoldable pub leave_as :
      SerfState → (Serf I A → Serf I A) → ℕ → Serf I A → Serf I A × Result M (Unit {0})
  unfolding announce_leave become_left
  leave_as SerfState.left meanwhile now s = (s, ok tt)
  leave_as SerfState.leaving meanwhile now s = (s, err (Error.bad_leave_status SerfState.leaving))
  leave_as SerfState.shutdown meanwhile now s = (s, err (Error.bad_leave_status SerfState.shutdown))
  leave_as SerfState.alive meanwhile now s =
      let (announced, r) = announce_leave now (record s { state = SerfState.leaving }) in
      elim r [ err x ↦ (announced, err x) | ok _ ↦ (become_left (meanwhile announced), ok tt) ]

  unfoldable pub leave : (Serf I A → Serf I A) → ℕ → Serf I A → Serf I A × Result M (Unit {0})
  unfolding leave_as
  leave meanwhile now s = leave_as s.state meanwhile now s

module _ {I A M : Type 0} where
  -- The end of `shutdown`, with memberlist's result; `meanwhile` is the wait for the background tasks.
  unfoldable pub close_shutdown :
      (Serf I A → Serf I A) → Result M (Unit {0}) → Serf I A → Serf I A × Result M (Unit {0})
  close_shutdown meanwhile (ok _) s = (meanwhile (record s { shutdown_closed = true }), ok tt)
  close_shutdown meanwhile (err x) s = (s, err x)

  -- `shutdown` by the state of the node.
  unfoldable pub shutdown_as :
      SerfState
      → (Serf I A → Serf I A × Result M (Unit {0}))
      → (Serf I A → Serf I A)
      → Serf I A
      → Serf I A × Result M (Unit {0})
  unfolding close_shutdown
  shutdown_as SerfState.shutdown memberlist_shutdown meanwhile s = (s, ok tt)
  shutdown_as _ memberlist_shutdown meanwhile s =
      let (stopped, r) = memberlist_shutdown (record s { state = SerfState.shutdown }) in
      close_shutdown meanwhile r stopped

  unfoldable pub shutdown :
      (Serf I A → Serf I A × Result M (Unit {0}))
      → (Serf I A → Serf I A)
      → Serf I A
      → Serf I A × Result M (Unit {0})
  unfolding shutdown_as
  shutdown memberlist_shutdown meanwhile s = shutdown_as s.state memberlist_shutdown meanwhile s
