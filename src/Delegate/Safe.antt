-- ===== src/Delegate/Safe.antt =====
-- Whatever memberlist hands over (core/src/serf/delegate.rs), a healthy node handles it without a panic
-- and stays healthy.
use ruserf.Prelude.{
  false, drop, All, ℕ, ◌<◌, ◌≡◌, refl, Bool, ◌&&◌, Option, none, some, List, [], ◌∷◌, arith, Eq,
  ltb, length, ◌%◌, length-set, contains, lookup, Option-cases, Bool-cases, inl, inr,
}
use ruserf.Types.{
  Bytes, MessageType, UserEventMessage, QueryMessage, InternalQueryEvent, PushPullMessage, node_eq,
}
use ruserf.Serf.{Serf, SerfMessage, Codec}
use ruserf.Members.Invariant.{IsValid}
use ruserf.Members.Kept.{handle_node_join_intent-IsValid, handle_node_leave_intent-IsValid}
use ruserf.Events.Handler.{handle_user_event}
use ruserf.Events.Slots as EventSlots
use ruserf.Events.Once.{run}
use ruserf.Queries.Wire.{message_type}
use ruserf.Queries.Handler.{handle_query}
use ruserf.Queries.Slots.{stored_query, process_query-Speaks}
use ruserf.Queries.Slots as QuerySlots
use ruserf.Delegate.Merge.{
  remote_events, witness_clocks, ignore_older_events, merge_left, merge_statuses, merge_members,
  merge_push_pull, merge_decoded, merge_typed, merge_remote_state,
}
use ruserf.Delegate.Kept.{
  SameCores, handle_node_join_intent-SameCores, handle_node_leave_intent-SameCores,
}

module _ {I A : Type 0} ⦃e : Eq I⦄ where
  -- The members are well formed, and the buffers have slots.
  pub record IsHealthy (s : Serf I A) : Type 0 where
    pub members : IsValid s.members
    pub events : 0 < length s.event_core.buffer
    pub queries : 0 < length s.query_core.buffer

  -- The call returns, with a healthy state.
  abbrev pub StaysHealthy : Option (Serf I A) → Type 0
  StaysHealthy r = (s : Serf I A) × (r ≡ some s) × IsHealthy s

  pub SameCores-IsHealthy :
      (s s' : Serf I A) → IsHealthy s → IsValid s'.members → SameCores s s' → IsHealthy s'
  SameCores-IsHealthy s s' h v (events, queries) = record {
    members = v;
    events = rw events h.events;
    queries = rw queries h.queries;
  }

  pub handle_user_event-IsHealthy :
      (msg : UserEventMessage) (s : Serf I A)
      → IsHealthy s
      → (r : Serf I A × Bool) × (handle_user_event msg s ≡ some r) × IsHealthy r.0
  handle_user_event-IsHealthy msg s h =
      let (r, done, o) = EventSlots.handle_user_event-Outcome msg s h.events in (r, done, kept r o)
    where
      kept : (r : Serf I A × Bool) → EventSlots.Outcome msg s r → IsHealthy r.0
      kept r (EventSlots.dropped same) =
          rw same record { members = h.members; events = h.events; queries = h.queries }
      kept r (EventSlots.delivered seen slot found new same) = rw same record {
        members = h.members;
        events =
            (let n =
                length-set s.event_core.buffer (msg.ltime % length s.event_core.buffer)
                  (some slot) in
              let h' = h.events in omega arith);
        queries = h.queries;
      }

  pub handle_query-IsHealthy :
      (codec : Codec I A) (draws : ℕ → ℕ) (q : QueryMessage I A)
      (ty : Option (InternalQueryEvent I)) (s : Serf I A)
      → All (λ b. codec.filter_panics b ≡ false) q.filters
      → IsHealthy s
      → (r : Serf I A × Bool) × (handle_query codec draws q ty s ≡ some r) × IsHealthy r.0
  handle_query-IsHealthy codec draws q ty s reads h =
      let (r, done, o) = QuerySlots.handle_query-Outcome codec draws q ty s h.queries reads in
      (r, done, kept r o)
    where
      kept : (r : Serf I A × Bool) → QuerySlots.Outcome codec draws q ty s r → IsHealthy r.0
      kept r (QuerySlots.rejected why same) =
          rw same record { members = h.members; events = h.events; queries = h.queries }
      kept r (QuerySlots.known seen fresh found old same) =
          rw same record { members = h.members; events = h.events; queries = h.queries }
      kept r (QuerySlots.processed seen slot fresh found new same) =
          let (sends, events, says) =
            process_query-Speaks codec draws q ty (stored_query q s slot) in
          rw (same, says)
            record {
              members = h.members;
              events = h.events;
              queries =
                  (let n =
                      length-set s.query_core.buffer (q.ltime % length s.query_core.buffer)
                        (some slot) in
                    let h' = h.queries in omega arith);
            }

  run-IsHealthy :
      (msgs : List UserEventMessage) (s : Serf I A) → IsHealthy s → StaysHealthy (run msgs s)
  unfolding run
  run-IsHealthy [] s h = (s, refl, h)
  run-IsHealthy (msg ∷ msgs) s h =
      let (r, done, h') = handle_user_event-IsHealthy msg s h in
      let (s', done', h'') = run-IsHealthy msgs r.0 h' in (s', rw (done, run) done', h'')

  merge_left-IsHealthy :
      (now : ℕ) (ids : List I) (times : List (I × ℕ)) (s : Serf I A)
      → IsHealthy s
      → IsHealthy (merge_left now ids times s)
  unfolding merge_left
  merge_left-IsHealthy now [] times s h = h
  merge_left-IsHealthy now (id ∷ ids) times s h = elim (Option-cases (lookup id times)) [
    | inl absent ↦ rw (absent, merge_left) (merge_left-IsHealthy now ids times s h)
    | inr (t, found) ↦
        rw (found, merge_left)
          (merge_left-IsHealthy now ids times _ (
            SameCores-IsHealthy s _ h (handle_node_leave_intent-IsValid _ now s h.members)
              (handle_node_leave_intent-SameCores _ now s)))
  ]

  merge_statuses-IsHealthy :
      (now : ℕ) (left : List I) (times : List (I × ℕ)) (s : Serf I A)
      → IsHealthy s
      → IsHealthy (merge_statuses now left times s)
  unfolding merge_statuses
  merge_statuses-IsHealthy now left [] s h = h
  merge_statuses-IsHealthy now left (x ∷ times) s h = elim (Bool-cases (contains x.0 left)) [
    | inl skip ↦ rw (skip, merge_statuses) (merge_statuses-IsHealthy now left times s h)
    | inr join ↦
        rw (join, merge_statuses)
          (merge_statuses-IsHealthy now left times _ (
            SameCores-IsHealthy s _ h (handle_node_join_intent-IsValid _ now s h.members)
              (handle_node_join_intent-SameCores _ now s)))
  ]

  ignore_older_events-IsHealthy :
      (time : ℕ) (is_join : Bool) (s : Serf I A)
      → IsHealthy s
      → IsHealthy (ignore_older_events time is_join s)
  unfolding ignore_older_events
  ignore_older_events-IsHealthy time is_join s h =
      elim (Bool-cases (is_join && s.event_join_ignore && ltb s.event_core.min_time time)) [
        | inl raised ↦
            rw (raised, ignore_older_events)
              record { members = h.members; events = h.events; queries = h.queries }
        | inr same ↦ let e' : ignore_older_events time is_join s ≡ s = ground arith in rw e' h
      ]

  merge_members-IsHealthy :
      (now : ℕ) (pp : PushPullMessage I) (is_join : Bool) (s : Serf I A)
      → IsHealthy s
      → IsHealthy (merge_members now pp is_join s)
  unfolding merge_members witness_clocks
  merge_members-IsHealthy now pp is_join s h =
      let h' : IsHealthy (witness_clocks pp s) = record {
        members = h.members;
        events = h.events;
        queries = h.queries;
      } in
      ignore_older_events-IsHealthy pp.event_ltime is_join _ (
        merge_statuses-IsHealthy now pp.left_members pp.status_ltimes _
          (merge_left-IsHealthy now pp.left_members pp.status_ltimes _ h'))

  merge_decoded-IsHealthy :
      (now : ℕ) (is_join : Bool) (o : Option (SerfMessage I A)) (s : Serf I A)
      → IsHealthy s
      → StaysHealthy (merge_decoded now is_join o s)
  unfolding merge_decoded merge_push_pull
  merge_decoded-IsHealthy now is_join (some (SerfMessage.push_pull pp)) s h =
      run-IsHealthy (remote_events pp.events) (merge_members now pp is_join s)
        (merge_members-IsHealthy now pp is_join s h)
  merge_decoded-IsHealthy now is_join none s h = (s, refl, h)
  merge_decoded-IsHealthy now is_join (some (SerfMessage.leave m)) s h = (s, refl, h)
  merge_decoded-IsHealthy now is_join (some (SerfMessage.join m)) s h = (s, refl, h)
  merge_decoded-IsHealthy now is_join (some (SerfMessage.user_event m)) s h = (s, refl, h)
  merge_decoded-IsHealthy now is_join (some (SerfMessage.query m)) s h = (s, refl, h)
  merge_decoded-IsHealthy now is_join (some (SerfMessage.query_response m)) s h = (s, refl, h)
  merge_decoded-IsHealthy now is_join (some (SerfMessage.conflict_response m)) s h = (s, refl, h)

  merge_typed-IsHealthy :
      (codec : Codec I A) (now : ℕ) (ty : Option MessageType) (body : Bytes) (is_join : Bool)
      (s : Serf I A)
      → codec.message_panics MessageType.push_pull body ≡ false
      → IsHealthy s
      → StaysHealthy (merge_typed now codec ty body is_join s)
  unfolding merge_typed
  merge_typed-IsHealthy codec now none body is_join s reads h = (s, refl, h)
  merge_typed-IsHealthy codec now (some MessageType.push_pull) body is_join s reads h =
      rw (reads, merge_typed)
        (merge_decoded-IsHealthy now is_join (codec.decode_message MessageType.push_pull body) s h)
  merge_typed-IsHealthy codec now (some MessageType.leave) body is_join s reads h = (s, refl, h)
  merge_typed-IsHealthy codec now (some MessageType.join) body is_join s reads h = (s, refl, h)
  merge_typed-IsHealthy codec now (some MessageType.user_event) body is_join s reads h =
      (s, refl, h)
  merge_typed-IsHealthy codec now (some MessageType.query) body is_join s reads h = (s, refl, h)
  merge_typed-IsHealthy codec now (some MessageType.query_response) body is_join s reads h =
      (s, refl, h)
  merge_typed-IsHealthy codec now (some MessageType.conflict_response) body is_join s reads h =
      (s, refl, h)
  merge_typed-IsHealthy codec now (some MessageType.relay) body is_join s reads h = (s, refl, h)
  merge_typed-IsHealthy codec now (some MessageType.key_request) body is_join s reads h =
      (s, refl, h)
  merge_typed-IsHealthy codec now (some MessageType.key_response) body is_join s reads h =
      (s, refl, h)

  -- Whatever bytes another node sends as its state, if what follows their first byte does not panic the
  -- decoder of such a state, a node with well-formed members and buffers with slots merges them without
  -- a panic, and stays such a node.
  pub merge_remote_state-IsHealthy :
      (codec : Codec I A) (now : ℕ) (buf : Bytes) (is_join : Bool) (s : Serf I A)
      → codec.message_panics MessageType.push_pull (drop 1 buf) ≡ false
      → IsHealthy s
      → StaysHealthy (merge_remote_state now codec buf is_join s)
  unfolding merge_remote_state
  merge_remote_state-IsHealthy codec now [] is_join s reads h = (s, refl, h)
  merge_remote_state-IsHealthy codec now (b ∷ body) is_join s reads h =
      merge_typed-IsHealthy codec now (message_type b) body is_join s reads h
