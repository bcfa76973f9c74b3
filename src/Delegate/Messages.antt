-- ===== src/Delegate/Messages.antt =====
-- Messages from other nodes (core/src/serf/delegate.rs, `notify_message`): what they can do to a node.
use ruserf.Prelude.{
  drop, All, ℕ, ◌+◌, ◌≤◌, ◌≡◌, refl, Bool, true, false, Option, none, some, [], ◌∷◌, arith, Eq,
  ◌==◌, ltb, lookup, nat_eq, length, if◌then◌else◌, Option-cases, Bool-cases, inl, inr,
}
use ruserf.Types.{Bytes, MessageType, Node, QueryMessage, QueryResponseMessage, node_eq}
use ruserf.Serf.{Serf, SerfMessage, Codec}
use ruserf.Members.Join.{handle_node_join_intent}
use ruserf.Members.Leave.{handle_node_leave_intent}
use ruserf.Members.Kept.{handle_node_join_intent-IsValid, handle_node_leave_intent-IsValid}
use ruserf.Events.Handler.{handle_user_event}
use ruserf.Queries.Wire.{message_type}
use ruserf.Queries.Handler.{handle_query}
use ruserf.Queries.Response.{handle_query_response}
use ruserf.Delegate.Notify.{
  InternalQuery, decode_internal_query, queue_broadcast, queue_event_broadcast,
  queue_query_broadcast, is_decoded, as_leave, as_join, as_user_event, as_query, as_query_response,
  notify_query, notify_decoded, notify_relay, notify_typed, notify_message,
}
use ruserf.Delegate.Kept.{handle_node_join_intent-SameCores, handle_node_leave_intent-SameCores}
use ruserf.Delegate.Safe.{
  IsHealthy, StaysHealthy, SameCores-IsHealthy, handle_user_event-IsHealthy, handle_query-IsHealthy,
}

module _ {I A : Type 0} ⦃e : Eq I⦄ where
  queue_broadcast-IsHealthy :
      (msg : Bytes) (r : Serf I A × Bool) → IsHealthy r.0 → IsHealthy (queue_broadcast msg r)
  queue_broadcast-IsHealthy msg (s, true) h = record {
    members = h.members;
    events = h.events;
    queries = h.queries;
  }
  queue_broadcast-IsHealthy msg (s, false) h = h

  queue_event_broadcast-IsHealthy :
      (msg : Bytes) (o : Option (Serf I A × Bool))
      → (r : Serf I A × Bool) × (o ≡ some r) × IsHealthy r.0
      → StaysHealthy (queue_event_broadcast msg o)
  queue_event_broadcast-IsHealthy msg o ((s, true), done, h) =
      rw done (_, refl, record { members = h.members; events = h.events; queries = h.queries })
  queue_event_broadcast-IsHealthy msg o ((s, false), done, h) = rw done (s, refl, h)

  queue_query_broadcast-IsHealthy :
      (msg : Bytes) (o : Option (Serf I A × Bool))
      → (r : Serf I A × Bool) × (o ≡ some r) × IsHealthy r.0
      → StaysHealthy (queue_query_broadcast msg o)
  queue_query_broadcast-IsHealthy msg o ((s, true), done, h) =
      rw done (_, refl, record { members = h.members; events = h.events; queries = h.queries })
  queue_query_broadcast-IsHealthy msg o ((s, false), done, h) = rw done (s, refl, h)

module _ {I A : Type 0} ⦃e : Eq I⦄ ⦃a : Eq A⦄ (codec : Codec I A) (draws : ℕ → ℕ) (now : ℕ) where
  handle_query_response-IsHealthy :
      (resp : QueryResponseMessage I A) (s : Serf I A)
      → IsHealthy s
      → IsHealthy (handle_query_response resp now s)
  unfolding handle_query_response
  handle_query_response-IsHealthy resp s h =
      elim (Option-cases (lookup resp.ltime s.query_core.responses)) [
        | inl absent ↦ rw (absent, handle_query_response) h
        | inr (query, found) ↦ elim (Bool-cases (query.id == resp.id)) [
          | inr other ↦ rw (found, other, handle_query_response) h
          | inl same ↦
              rw (found, same, handle_query_response)
                record { members = h.members; events = h.events; queries = h.queries }
        ]
      ]

  notify_query-IsHealthy :
      (msg : Bytes) (q : QueryMessage I A) (s : Serf I A)
      → All (λ b. codec.filter_panics b ≡ false) q.filters
      → IsHealthy s
      → StaysHealthy (notify_query codec draws now msg q s)
  unfolding notify_query
  notify_query-IsHealthy msg q s reads h = by_kind (decode_internal_query codec q.name q.payload)
    where
      by_kind :
          (k : InternalQuery I)
          → StaysHealthy (elim k [
            | InternalQuery.malformed ↦ some s
            | InternalQuery.internal ty ↦
                queue_query_broadcast msg (handle_query codec draws q (some ty) s)
            | InternalQuery.external ↦ queue_query_broadcast msg (handle_query codec draws q none s)
          ])
      by_kind InternalQuery.malformed = (s, refl, h)
      by_kind (InternalQuery.internal ty) =
          queue_query_broadcast-IsHealthy msg (handle_query codec draws q (some ty) s)
            (handle_query-IsHealthy codec draws q (some ty) s reads h)
      by_kind InternalQuery.external =
          queue_query_broadcast-IsHealthy msg (handle_query codec draws q none s)
            (handle_query-IsHealthy codec draws q none s reads h)

  notify_decoded-IsHealthy :
      (ty : MessageType) (msg : Bytes) (m : SerfMessage I A) (s : Serf I A)
      → ((q : QueryMessage I A)
          → as_query m ≡ some q
          → All (λ b. codec.filter_panics b ≡ false) q.filters)
      → IsHealthy s
      → StaysHealthy (notify_decoded codec draws now ty msg m s)
  unfolding notify_decoded
  notify_decoded-IsHealthy MessageType.leave msg m s reads h = elim (Option-cases (as_leave m)) [
    | inl odd ↦ rw (odd, notify_decoded) (s, refl, h)
    | inr (l, right) ↦
        rw (right, notify_decoded)
          (
            _,
            refl,
            queue_broadcast-IsHealthy msg (handle_node_leave_intent l now s) (
                SameCores-IsHealthy s (handle_node_leave_intent l now s).0 h
                  (handle_node_leave_intent-IsValid l now s h.members)
                  (handle_node_leave_intent-SameCores l now s)),
          )
  ]
  notify_decoded-IsHealthy MessageType.join msg m s reads h = elim (Option-cases (as_join m)) [
    | inl odd ↦ rw (odd, notify_decoded) (s, refl, h)
    | inr (j, right) ↦
        rw (right, notify_decoded)
          (
            _,
            refl,
            queue_broadcast-IsHealthy msg (handle_node_join_intent j now s) (
                SameCores-IsHealthy s (handle_node_join_intent j now s).0 h
                  (handle_node_join_intent-IsValid j now s h.members)
                  (handle_node_join_intent-SameCores j now s)),
          )
  ]
  notify_decoded-IsHealthy MessageType.user_event msg m s reads h =
      elim (Option-cases (as_user_event m)) [
        | inl odd ↦ rw (odd, notify_decoded) (s, refl, h)
        | inr (ue, right) ↦
            rw (right, notify_decoded)
              (queue_event_broadcast-IsHealthy msg (handle_user_event ue s)
                (handle_user_event-IsHealthy ue s h))
      ]
  notify_decoded-IsHealthy MessageType.query msg m s reads h = elim (Option-cases (as_query m)) [
    | inl odd ↦ rw (odd, notify_decoded) (s, refl, h)
    | inr (q, right) ↦ rw (right, notify_decoded) (notify_query-IsHealthy msg q s (reads q right) h)
  ]
  notify_decoded-IsHealthy MessageType.query_response msg m s reads h =
      elim (Option-cases (as_query_response m)) [
        | inl odd ↦ rw (odd, notify_decoded) (s, refl, h)
        | inr (qr, right) ↦
            rw (right, notify_decoded) (_, refl, handle_query_response-IsHealthy qr s h)
      ]
  notify_decoded-IsHealthy MessageType.push_pull msg m s reads h = (s, refl, h)
  notify_decoded-IsHealthy MessageType.conflict_response msg m s reads h = (s, refl, h)
  notify_decoded-IsHealthy MessageType.relay msg m s reads h = (s, refl, h)
  notify_decoded-IsHealthy MessageType.key_request msg m s reads h = (s, refl, h)
  notify_decoded-IsHealthy MessageType.key_response msg m s reads h = (s, refl, h)

  notify_relay-IsHealthy :
      (b : ℕ) (body : Bytes) (s : Serf I A)
      → ((k : ℕ) (n : Node I A) → codec.decode_node body ≡ some (k, n) → k ≤ length body)
      → IsHealthy s
      → StaysHealthy (notify_relay codec draws now (b ∷ body) body s)
  unfolding notify_relay
  notify_relay-IsHealthy b body s reads h = elim (Option-cases (codec.decode_node body)) [
    | inl bad ↦ rw (bad, notify_relay) (s, refl, h)
    | inr ((k, n), good) ↦
        let within = reads k n good in
        let enough : ltb (length (b ∷ body)) (k + 1) ≡ false = ground arith in
        rw (good, enough, notify_relay)
          (_, refl, record { members = h.members; events = h.events; queries = h.queries })
  ]

  decoded-IsHealthy :
      (ty : MessageType) (msg : Bytes) (panics : Bool) (o : Option (SerfMessage I A)) (s : Serf I A)
      → panics ≡ false
      → ((m : SerfMessage I A) (q : QueryMessage I A)
          → o ≡ some m
          → as_query m ≡ some q
          → All (λ b. codec.filter_panics b ≡ false) q.filters)
      → IsHealthy s
      → StaysHealthy (
          if is_decoded ty
          then (if panics
              then none
              else elim o [ none ↦ some s | some m ↦ notify_decoded codec draws now ty msg m s ])
          else some s)
  decoded-IsHealthy ty msg panics none s fine reads h = elim (Bool-cases (is_decoded ty)) [
    | inl read ↦ rw (read, fine) (s, refl, h)
    | inr other ↦ rw other (s, refl, h)
  ]
  decoded-IsHealthy ty msg panics (some m) s fine reads h = elim (Bool-cases (is_decoded ty)) [
    | inl read ↦ rw (read, fine) (notify_decoded-IsHealthy ty msg m s (λ q. reads m q refl) h)
    | inr other ↦ rw other (s, refl, h)
  ]

  -- Whatever bytes arrive as a message, if what follows their first byte panics no decoder of messages,
  -- the filters of a query in them do not panic theirs, and the decoder of nodes does not claim to have
  -- read more bytes than there are, a node with well-formed members and buffers with slots handles them
  -- without a panic and stays such a node.
  pub notify_message-IsHealthy :
      (msg : Bytes) (s : Serf I A)
      → ((ty : MessageType) → codec.message_panics ty (drop 1 msg) ≡ false)
      → ((ty : MessageType) (m : SerfMessage I A) (q : QueryMessage I A)
          → codec.decode_message ty (drop 1 msg) ≡ some m
          → as_query m ≡ some q
          → All (λ b. codec.filter_panics b ≡ false) q.filters)
      → ((k : ℕ) (n : Node I A)
          → codec.decode_node (drop 1 msg) ≡ some (k, n)
          → k ≤ length (drop 1 msg))
      → IsHealthy s
      → StaysHealthy (notify_message codec draws now msg s)
  unfolding notify_message notify_typed
  notify_message-IsHealthy [] s fine filters reads h = (s, refl, h)
  notify_message-IsHealthy (b ∷ body) s fine filters reads h =
      elim (Option-cases (message_type b)) [
        | inl unknown ↦ rw (unknown, notify_message) (s, refl, h)
        | inr (ty, typed) ↦ rw (typed, notify_message) (by_type ty)
      ]
    where
      decodes :
          (ty : MessageType)
          → StaysHealthy (
              if is_decoded ty
              then (if codec.message_panics ty body
                  then none
                  else elim (codec.decode_message ty body) [
                    | none ↦ some s
                    | some m ↦ notify_decoded codec draws now ty (b ∷ body) m s
                  ])
              else some s)
      decodes ty =
          decoded-IsHealthy ty (b ∷ body) (codec.message_panics ty body)
            (codec.decode_message ty body) s (fine ty) (filters ty) h

      by_type :
          (ty : MessageType) → StaysHealthy (notify_typed codec draws now ty (b ∷ body) body s)
      by_type MessageType.relay = notify_relay-IsHealthy b body s reads h
      by_type MessageType.leave = decodes MessageType.leave
      by_type MessageType.join = decodes MessageType.join
      by_type MessageType.push_pull = decodes MessageType.push_pull
      by_type MessageType.user_event = decodes MessageType.user_event
      by_type MessageType.query = decodes MessageType.query
      by_type MessageType.query_response = decodes MessageType.query_response
      by_type MessageType.conflict_response = decodes MessageType.conflict_response
      by_type MessageType.key_request = decodes MessageType.key_request
      by_type MessageType.key_response = decodes MessageType.key_response
