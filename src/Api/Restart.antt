-- ===== src/Api/Restart.antt =====
-- A node that starts from a snapshot (`new_in` of core/src/serf/base.rs).
use ruserf.Prelude.{
  ℕ, ◌+◌, ◌≤◌, ◌<◌, ◌≡◌, refl, ap, ◌∙◌, true, false, Option, none, some, Eq, ltb, length,
  length-replicate, lookup, arith, Option-cases, inl, inr,
}
use ruserf.Types.{Node, NodeState, UserEventMessage, QueryMessage, InternalQueryEvent}
use ruserf.Serf.{Serf, Codec}
use ruserf.Clock.{u64_mod, new, increment, witness}
use ruserf.Snapshot.Replay.{ReplayResult}
use ruserf.Members.Invariant.{IsValid}
use ruserf.Members.Kept.{handle_node_join-IsValid}
use ruserf.Members.History.{no_members-IsValid}
use ruserf.Members.Join.{node_tags, rejoin, first_join, handle_node_join}
use ruserf.Events.Handler.{handle_user_event}
use ruserf.Queries.Handler.{handle_query}
use ruserf.Delegate.Safe.{IsHealthy}
use ruserf.Api.{Result, ok, err}
use ruserf.Api.Start.{StartOptions, restored_clock, initial, join_local, new_in}

restored : (old : ℕ) → old + 1 < u64_mod → restored_clock old ≡ old + 1
unfolding restored_clock increment new witness
restored old h = ground arith

module _ {I A : Type 0} ⦃e : Eq I⦄ where
  -- The clocks and the buffers.
  record SameTimes (s s' : Serf I A) : Type 0 where
    clock : s'.clock ≡ s.clock
    event_clock : s'.event_clock ≡ s.event_clock
    query_clock : s'.query_clock ≡ s.query_clock
    event_core : s'.event_core ≡ s.event_core
    query_core : s'.query_core ≡ s.query_core

  handle_node_join-SameTimes :
      (codec : Codec I A) (n : NodeState I A) (s : Serf I A)
      → SameTimes s (handle_node_join codec n s)
  unfolding handle_node_join rejoin first_join
  handle_node_join-SameTimes codec n s = elim (Option-cases (node_tags codec n)) [
    | inl bad ↦
        rw (bad, handle_node_join)
          record {
            clock = refl;
            event_clock = refl;
            query_clock = refl;
            event_core = refl;
            query_core = refl;
          }
    | inr (tags, good) ↦ elim (Option-cases (lookup n.node.id s.members.states)) [
      | inl absent ↦
          rw (good, absent, handle_node_join)
            record {
              clock = refl;
              event_clock = refl;
              query_clock = refl;
              event_core = refl;
              query_core = refl;
            }
      | inr (old, found) ↦
          rw (good, found, handle_node_join)
            record {
              clock = refl;
              event_clock = refl;
              query_clock = refl;
              event_core = refl;
              query_core = refl;
            }
    ]
  ]

module _ {I A : Type 0} ⦃e : Eq I⦄ ⦃a : Eq A⦄ (codec : Codec I A) (draws : ℕ → ℕ) where
  join_local-SameTimes :
      (n : Option (NodeState I A)) (s : Serf I A) → SameTimes s (join_local codec n s)
  unfolding join_local
  join_local-SameTimes none s = record {
    clock = refl;
    event_clock = refl;
    query_clock = refl;
    event_core = refl;
    query_core = refl;
  }
  join_local-SameTimes (some n) s = handle_node_join-SameTimes codec n s

  join_local-IsValid :
      (n : Option (NodeState I A)) (s : Serf I A)
      → IsValid s.members
      → IsValid (join_local codec n s).members
  unfolding join_local
  join_local-IsValid none s v = v
  join_local-IsValid (some n) s v = handle_node_join-IsValid codec n s v

  new_in_made :
      (M : Type 0) (meta_max_size : ℕ) (o : StartOptions) (snapshot : Option (ReplayResult I A))
      (memberlist : Result M (Node I A × Option (NodeState I A))) (s : Serf I A)
      → new_in codec meta_max_size o snapshot memberlist ≡ ok s
      → (node : Node I A) × (n : Option (NodeState I A)) × (join_local codec n
            (initial o snapshot node)
          ≡ s)
  unfolding new_in
  new_in_made M meta_max_size o snapshot (err x) s h = absurd (ground arith)
  new_in_made M meta_max_size o snapshot (ok node) s h = (node.0, node.1, ground arith)

  -- A node that starts from a snapshot with buffers that have slots is healthy, its clocks are one past
  -- those of the snapshot, and no user event and no query up to the snapshot's times, which it had
  -- seen before, is delivered again, provided that those times are below the last u64.
  pub new_in_restores :
      (M : Type 0) (meta_max_size : ℕ) (o : StartOptions) (rs : ReplayResult I A)
      (memberlist : Result M (Node I A × Option (NodeState I A))) (s : Serf I A)
      (msg : UserEventMessage) (q : QueryMessage I A) (ty : Option (InternalQueryEvent I))
      → 0 < o.event_buffer_size
      → 0 < o.query_buffer_size
      → rs.last_clock + 1 < u64_mod
      → rs.last_event_clock + 1 < u64_mod
      → rs.last_query_clock + 1 < u64_mod
      → msg.ltime ≤ rs.last_event_clock
      → q.ltime ≤ rs.last_query_clock
      → new_in codec meta_max_size o (some rs) memberlist ≡ ok s
      → IsHealthy s
        × (s.clock ≡ rs.last_clock + 1)
        × (s.event_clock ≡ rs.last_event_clock + 1)
        × (s.query_clock ≡ rs.last_query_clock + 1)
        × (handle_user_event msg s
            ≡ some (record s { event_clock = witness s.event_clock msg.ltime }, false))
        × (handle_query codec draws q ty s
            ≡ some (record s { query_clock = witness s.query_clock q.ltime }, false))
  unfolding initial handle_user_event handle_query
  new_in_restores M meta_max_size o rs memberlist s msg q ty room slots small small_event
        small_query seen seen_query h =
      let (node, n, made) = new_in_made M meta_max_size o (some rs) memberlist s h in
      let start = initial o (some rs) node in
      let same : SameTimes start s = rw (← made) (join_local-SameTimes n start) in
      let early : ltb msg.ltime s.event_core.min_time ≡ true =
        rw (ap (λ c. c.min_time) same.event_core) (ground arith) in
      let early_query : ltb q.ltime s.query_core.min_time ≡ true =
        rw (ap (λ c. c.min_time) same.query_core) (ground arith) in
      let valid : IsValid s.members =
        rw (← made) (join_local-IsValid n start (no_members-IsValid codec (λ m t. t))) in
      (
        record {
          members = valid;
          events = rw (ap (λ c. length c.buffer) same.event_core, length-replicate) room;
          queries = rw (ap (λ c. length c.buffer) same.query_core, length-replicate) slots;
        },
        same.clock ∙ restored rs.last_clock small,
        same.event_clock ∙ restored rs.last_event_clock small_event,
        same.query_clock ∙ restored rs.last_query_clock small_query,
        rw (early, handle_user_event) refl,
        rw (early_query, handle_query) refl,
      )
