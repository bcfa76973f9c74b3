-- ===== src/Members/History.antt =====
-- The members over any history of calls: what memberlist reports, intents from gossip, metadata
-- updates and ticks of the reaper, in any order (core/src/serf/base.rs).
use ruserf.Prelude.{ℕ, lookup, ◌≡◌, refl, some, List, [], ◌∷◌, Eq, max, ◌+◌, ◌-◌, length, arith}
use ruserf.Types.{Member, Members, NodeState, JoinMessage, LeaveMessage}
use ruserf.Serf.{Serf, Codec}
use ruserf.Members.Join.{handle_node_join, handle_node_join_intent}
use ruserf.Members.Leave.{handle_node_leave, handle_node_leave_intent}
use ruserf.Members.Update.{handle_node_update}
use ruserf.Members.Reap.{reap_tick}
use ruserf.Members.Invariant.{IsValid}
use ruserf.Members.Kept.{
  handle_node_join-IsValid, handle_node_join_intent-IsValid, handle_node_leave-IsValid,
  handle_node_leave_intent-IsValid, handle_node_update-IsValid,
}
use ruserf.Members.Reaping.{reap_tick-IsValid}
use ruserf.Members.Bounds.{num_alive, num_alive_exact}

-- One call, with the time at which it is made.
pub data Call (I A : Type 0) : Type 0 where
  join : NodeState I A → Call I A
  leave : NodeState I A → ℕ → Call I A
  update : NodeState I A → Call I A
  join_intent : JoinMessage I → ℕ → Call I A
  leave_intent : LeaveMessage I → ℕ → Call I A
  reap : (now reconnect_timeout tombstone_timeout recent_intent_timeout : ℕ) → Call I A

abbrev pub no_members : {I A : Type 0} → Members I A
no_members = record { states = []; recent_intents = []; left_members = []; failed_members = [] }

module _ {I A : Type 0} ⦃e : Eq I⦄ (c : Codec I A) (timeout_of : Member I A → ℕ → ℕ) where
  unfoldable pub step : Call I A → Serf I A → Serf I A
  step (join n) s = handle_node_join c n s
  step (leave n now) s = handle_node_leave n now s
  step (update n) s = handle_node_update c n s
  step (join_intent msg now) s = (handle_node_join_intent msg now s).0
  step (leave_intent msg now) s = (handle_node_leave_intent msg now s).0
  step (reap now a b d) s = reap_tick timeout_of now a b d s

  unfoldable pub run : List (Call I A) → Serf I A → Serf I A
  unfolding step
  run [] s = s
  run (call ∷ calls) s = run calls (step call s)

  step-IsValid :
      (call : Call I A) (s : Serf I A) → IsValid s.members → IsValid (step call s).members
  unfolding step
  step-IsValid (join n) s v = handle_node_join-IsValid c n s v
  step-IsValid (leave n now) s v = handle_node_leave-IsValid n now s v
  step-IsValid (update n) s v = handle_node_update-IsValid c n s v
  step-IsValid (join_intent msg now) s v = handle_node_join_intent-IsValid msg now s v
  step-IsValid (leave_intent msg now) s v = handle_node_leave_intent-IsValid msg now s v
  step-IsValid (reap now a b d) s v = reap_tick-IsValid timeout_of now a b d s v

  -- Any history of calls keeps the members well formed: a node is in the failed list, once, exactly
  -- if the table has it as failed, and in the left list, once, exactly if the table has it as left;
  -- exactly these have a leave time; and no node is in the table twice.
  pub run-IsValid :
      (calls : List (Call I A)) (s : Serf I A) → IsValid s.members → IsValid (run calls s).members
  unfolding run
  run-IsValid [] s v = v
  run-IsValid (call ∷ calls) s v = run-IsValid calls (step call s) (step-IsValid call s v)

  pub no_members-IsValid : IsValid {I = I} {A = A} no_members
  no_members-IsValid = record {
    fits = λ j. unfold lookup in (refl, refl);
    distinct = λ j. omega arith;
    failed_dated = tt;
    left_dated = tt;
  }

  -- After any history that starts with no members, the subtraction of the reconnector does not
  -- underflow, and it counts the nodes of the table that are in neither list, or 1 if there is none.
  pub num_alive-run :
      (calls : List (Call I A)) (s : Serf I A)
      → s.members ≡ no_members
      → let m = (run calls s).members in
        num_alive m
        ≡ some (max (length m.states - (length m.failed_members + length m.left_members)) 1)
  num_alive-run calls s h =
      let v = run-IsValid calls s (rw h no_members-IsValid) in
      let (n, found, low, same) = num_alive_exact (run calls s).members v in rw found (rw same)
