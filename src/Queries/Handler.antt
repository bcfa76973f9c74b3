-- ===== src/Queries/Handler.antt =====
-- `query_event` and `handle_query` of core/src/serf/base.rs. `none` is a panic: the remainder by the
-- length of an empty buffer. The result says whether to rebroadcast.
use ruserf.Prelude.{
  ℕ, ◌+◌, ◌-◌, ◌%◌, Bool, true, false, not, ◌&&◌, Option, none, some, [], ◌∷◌, ◌++◌, Eq, ◌==◌, ltb,
  nat_eq, length, get_elem?, set, contains, if◌then◌else◌,
}
use ruserf.Types.{
  MessageType, Node, Queries, QueryMessage, QueryResponseMessage, QueryEvent, InternalQueryEvent,
  CrateEvent,
}
use ruserf.Serf.{Serf, SerfMessage, Codec}
use ruserf.Clock.{witness}
use ruserf.Queries.Wire.{type_byte, padded, should_process_query, filters_panic}
use ruserf.Queries.Relay.{relay_response}

-- The slot with the query recorded in it; `none` if the query is there already.
unfoldable pub record_query : Option Queries → (ltime id : ℕ) → Option Queries
record_query none ltime id = some (record { ltime = ltime; query_ids = id ∷ [] })
record_query (some seen) ltime id =
    if seen.ltime == ltime && contains id seen.query_ids
    then none
    else some (record seen { query_ids = seen.query_ids ++ id ∷ [] })

-- The age check, which does not look at the query's own time.
abbrev pub is_query_stale : (cur_time q_time : ℕ) → Bool
is_query_stale cur_time q_time = ltb q_time cur_time && ltb q_time (cur_time - q_time)

module _ {I A : Type 0} where
  abbrev pub query_event : QueryMessage I A → QueryEvent I A
  query_event q = record {
    ltime = q.ltime;
    name = q.name;
    payload = q.payload;
    query_timeout = q.timeout;
    id = q.id;
    from = q.from;
    relay_factor = q.relay_factor;
  }

  abbrev pub query_crate_event : Option (InternalQueryEvent I) → QueryMessage I A → CrateEvent I A
  query_crate_event none q = CrateEvent.query (query_event q)
  query_crate_event (some ty) q = CrateEvent.internal_query ty (query_event q)

  abbrev pub ack_of : Node I A → QueryMessage I A → QueryResponseMessage I A
  ack_of local q = record {
    ltime = q.ltime;
    id = q.id;
    from = local;
    flags = record { ack = true; no_broadcast = false };
    payload = [];
  }

module _ {I A : Type 0} ⦃e : Eq I⦄ (codec : Codec I A) (draws : ℕ → ℕ) where
  -- The ack to the sender of a query, sent and then relayed.
  unfoldable pub acknowledge : QueryMessage I A → Serf I A → Serf I A
  unfolding relay_response
  acknowledge q s =
      let ack = ack_of s.local_node q in
      let len = codec.message_encoded_len (SerfMessage.query_response ack) in
      elim (codec.encode_message (SerfMessage.query_response ack)) [
        | none ↦ s
        | some bytes ↦
            let raw = padded (len + 1) (type_byte MessageType.query_response ∷ bytes) in
            let sent : Serf I A = record s { sends = s.sends ++ (q.from.address, raw) ∷ [] } in
            elim (relay_response codec draws q.relay_factor q.from ack sent) [
              | none ↦ sent
              | some relayed ↦ relayed
            ]
      ]

  -- What follows once the query is recorded.
  unfoldable pub process_query :
      QueryMessage I A → Option (InternalQueryEvent I) → Serf I A → Serf I A × Bool
  unfolding acknowledge should_process_query
  process_query q ty s =
      let rebroadcast = not q.flags.no_broadcast in
      if not (should_process_query codec q.filters s) then (s, rebroadcast) else (
        (let acked = if q.flags.ack then acknowledge q s else s in
            record acked { events = acked.events ++ query_crate_event ty q ∷ [] }),
        rebroadcast,
      )

  unfoldable pub handle_query :
      QueryMessage I A → Option (InternalQueryEvent I) → Serf I A → Option (Serf I A × Bool)
  unfolding witness record_query process_query filters_panic
  handle_query q ty s0 =
      let s : Serf I A = record s0 { query_clock = witness s0.query_clock q.ltime } in
      let core = s.query_core in
      let q_time = length core.buffer in
      if ltb q.ltime core.min_time
      then some (s, false)
      else if is_query_stale s.query_clock q_time
      then some (s, false)
      else elim (get_elem? core.buffer (q.ltime % q_time)) [
        | none ↦ none
        | some seen ↦ elim (record_query seen q.ltime q.id) [
          | none ↦ some (s, false)
          | some slot ↦
              let stored : Serf I A = record s {
                query_core = record core {
                  buffer = set core.buffer (q.ltime % q_time) (some slot);
                };
              } in
              if filters_panic codec q.filters stored
              then none
              else some (process_query q ty stored)
        ]
      ]
