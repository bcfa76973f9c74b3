-- ===== src/Api/Registered.antt =====
-- What `query_in` (core/src/serf/base.rs) does to the node that asks.
use ruserf.Prelude.{
  All, List, false, ◌⊎◌, ◌≤◌, ltb→lt, not-ltb→le, ℕ, ◌<◌, ◌≡◌, ◌≢◌, refl, ap, ◌∙◌, Bool, Option,
  none, some, [], ◌∷◌, ◌++◌, Eq, nat_eq, ltb, length, lookup, lookup-insert, arith, Bool-cases,
  Option-cases, inl, inr, beq_refl,
}
use ruserf.Types.{Bytes, MessageType, QueryMessage, InternalQueryEvent}
use ruserf.Serf.{Serf, SerfMessage, QueryResponse, Codec, Filter}
use ruserf.Clock.{witness}
use ruserf.Queries.Handler.{handle_query}
use ruserf.Queries.Slots as QuerySlots
use ruserf.Queries.Slots.{stored_query, process_query-Speaks}
use ruserf.Queries.Response.{new_response, from_query, register_query_response}
use ruserf.Api.{Error, Result, ok, err}
use ruserf.Api.Broadcast.{raw_message}
use ruserf.Api.Query.{QueryParam, with_defaults, encode_filters, new_query, send_query, query_in}

module _ {I A : Type 0} ⦃e : Eq I⦄ (codec : Codec I A) (draws : ℕ → ℕ) where
  -- Handling a query touches neither the running queries nor what is queued.
  record SameRunning (q : QueryMessage I A) (s s' : Serf I A) : Type 0 where
    responses : s'.query_core.responses ≡ s.query_core.responses
    queued : s'.query_broadcasts ≡ s.query_broadcasts
    clock : s'.query_clock ≡ witness s.query_clock q.ltime

  handled-SameRunning :
      (q : QueryMessage I A) (ty : Option (InternalQueryEvent I)) (s : Serf I A)
      (r : Serf I A × Bool)
      → QuerySlots.Outcome codec draws q ty s r
      → SameRunning q s r.0
  handled-SameRunning q ty s r (QuerySlots.rejected c same) =
      rw same record { responses = refl; queued = refl; clock = refl }
  handled-SameRunning q ty s r (QuerySlots.known seen c found there same) =
      rw same record { responses = refl; queued = refl; clock = refl }
  handled-SameRunning q ty s r (QuerySlots.processed seen slot c found new same) =
      let (sends, events, spoken) = process_query-Speaks codec draws q ty (stored_query q s slot) in
      rw (same, spoken) record { responses = refl; queued = refl; clock = refl }

  handle_query-SameRunning :
      (q : QueryMessage I A) (ty : Option (InternalQueryEvent I)) (s : Serf I A)
      → 0 < length s.query_core.buffer
      → All (λ b. codec.filter_panics b ≡ false) q.filters
      → (r : Serf I A × Bool) × (handle_query codec draws q ty s ≡ some r) × SameRunning q s r.0
  handle_query-SameRunning q ty s room reads =
      let (r, done, o) = QuerySlots.handle_query-Outcome codec draws q ty s room reads in
      (r, done, handled-SameRunning q ty s r o)

module _ {I A : Type 0} where
  -- With some node online the response is made, with the query's time and id.
  from_query_made :
      (q : QueryMessage I A) (num_nodes now : ℕ)
      → num_nodes ≢ 0
      → (resp : QueryResponse I A) × (from_query q num_nodes now ≡ some resp)
        × (resp.ltime ≡ q.ltime)
        × (resp.id ≡ q.id)
  unfolding new_response
  from_query_made q num_nodes now online = elim (Option-cases (from_query q num_nodes now)) [
    | inl panic ↦ absurd (ground (arith, online))
    | inr (resp, made) ↦ (resp, made, ground (arith, online), ground (arith, online))
  ]

module _ {I A : Type 0} (codec : Codec I A) where
  -- The filters that are written panic no decoder, if none that the delegate writes does.
  encode_filters-reads :
      (fs : List (Filter I)) (filters : List Bytes)
      → ((f : Filter I) (b : Bytes)
          → codec.encode_filter f ≡ some b
          → codec.filter_panics b ≡ false)
      → encode_filters codec fs ≡ some filters
      → All (λ b. codec.filter_panics b ≡ false) filters
  unfolding encode_filters
  encode_filters-reads [] filters reads h = let at : [] ≡ filters = cc in rw (← at) tt
  encode_filters-reads (f ∷ fs) filters reads h = elim (Option-cases (codec.encode_filter f)) [
    | inl fails ↦ cc (rw (fails, encode_filters) at h)
    | inr (b, good) ↦ elim (Option-cases (encode_filters codec fs)) [
      | inl fails ↦ cc (rw (good, fails, encode_filters) at h)
      | inr (bs, rest) ↦
          let whole = rw (good, rest, encode_filters) at h in
          let at : b ∷ bs ≡ filters = cc in
          rw (← at) (reads f b good, encode_filters-reads fs bs reads rest)
    ]
  ]

module _ {I A : Type 0} ⦃e : Eq I⦄ ⦃a : Eq A⦄ (codec : Codec I A) (draws : ℕ → ℕ)
    (default_timeout id num_nodes now : ℕ) (name payload : Bytes) (params : Option (QueryParam I))
    (s : Serf I A) where
  -- The filters of the query as they are written, and the query with them.
  abbrev pub written : Option (List Bytes)
  unfolding encode_filters
  written = encode_filters codec (with_defaults default_timeout params).filters

  abbrev pub query_of : List Bytes → QueryMessage I A
  query_of filters = new_query (with_defaults default_timeout params) filters id name payload s

  abbrev pub len_of : List Bytes → ℕ
  len_of filters = codec.message_encoded_len (SerfMessage.query (query_of filters))

  -- Why a query is refused: a filter has no encoding, or the query is too large or has none.
  abbrev pub IsRefused : Type 0
  IsRefused =
      (written ≡ none)
      ⊎ ((filters : List Bytes) × (written ≡ some filters)
          × ((s.opts.query_size_limit < len_of filters)
              ⊎ (codec.encode_message (SerfMessage.query (query_of filters)) ≡ none)))

  -- What `query_in` makes of a node: nothing but an error, or a query that runs.
  pub data Outcome (M : Type 0) (r : Serf I A × Result M (QueryResponse I A)) : Type 0 where
    refused : (x : Error M) → r ≡ (s, err x) → IsRefused → Outcome M r
    runs :
        (resp : QueryResponse I A) (filters : List Bytes) (bytes : Bytes)
        → written ≡ some filters
        → len_of filters ≤ s.opts.query_size_limit
        → codec.encode_message (SerfMessage.query (query_of filters)) ≡ some bytes
        → r.1 ≡ ok resp
        → (resp.ltime ≡ s.query_clock) × (resp.id ≡ id)
        → lookup s.query_clock r.0.query_core.responses ≡ some resp
        → r.0.query_broadcasts
          ≡ s.query_broadcasts ++ raw_message MessageType.query (len_of filters) bytes ∷ []
        → r.0.query_clock ≡ witness s.query_clock s.query_clock
        → Outcome M r

  -- What is known of a query once it is sent.
  record Sent (M : Type 0) (raw : Bytes) (r : Serf I A × Result M (QueryResponse I A))
      : Type 0 where
    resp : QueryResponse I A
    accepted : r.1 ≡ ok resp
    own : (resp.ltime ≡ s.query_clock) × (resp.id ≡ id)
    registered : lookup s.query_clock r.0.query_core.responses ≡ some resp
    queued : r.0.query_broadcasts ≡ s.query_broadcasts ++ raw ∷ []
    clock : r.0.query_clock ≡ witness s.query_clock s.query_clock

  send_query-Sent :
      (M : Type 0) (q : QueryMessage I A) (raw : Bytes) (ty : Option (InternalQueryEvent I))
      → q.ltime ≡ s.query_clock
      → q.id ≡ id
      → All (λ b. codec.filter_panics b ≡ false) q.filters
      → 0 < length s.query_core.buffer
      → num_nodes ≢ 0
      → (r : Serf I A × Result M (QueryResponse I A)) × (send_query codec draws default_timeout id
            num_nodes now q raw ty s
          ≡ some r)
        × Sent M raw r
  unfolding send_query register_query_response new_response
  send_query-Sent M q raw ty at own reads room online =
      let (resp, made, timed, named) = from_query_made q num_nodes now online in
      let registered = register_query_response resp s in
      let (r, done, same) = handle_query-SameRunning codec draws q ty registered room reads in
      (
        (record r.0 { query_broadcasts = r.0.query_broadcasts ++ raw ∷ [] }, ok resp),
        rw (made, done, send_query) refl,
        record {
          resp = resp;
          accepted = refl;
          own = (timed ∙ at, named ∙ own);
          registered =
              ap (lookup s.query_clock) same.responses
              ∙ lookup-insert resp.ltime s.query_clock resp s.query_core.responses
              ∙ rw (timed, at, beq_refl s.query_clock) refl;
          queued = ap (λ l. l ++ raw ∷ []) same.queued;
          clock = same.clock ∙ ap (witness s.query_clock) at;
        },
      )

  -- While some node is online, the buffer of queries has slots, and no filter that the delegate writes
  -- panics its decoder, `query_in` does not panic. It refuses a query with a filter without an encoding,
  -- or that is over the limit or has no encoding, and then changes nothing; any other runs: its response
  -- stands in the table under the query's time, which is the query clock's, with its id, and the type
  -- byte and the encoding of the query are queued for the others.
  pub query_in_cases :
      (M : Type 0) (ty : Option (InternalQueryEvent I))
      → ((f : Filter I) (b : Bytes)
          → codec.encode_filter f ≡ some b
          → codec.filter_panics b ≡ false)
      → 0 < length s.query_core.buffer
      → num_nodes ≢ 0
      → (r : Serf I A × Result M (QueryResponse I A)) × (query_in codec draws default_timeout id
            num_nodes now name payload params ty s
          ≡ some r)
        × Outcome M r
  unfolding query_in
  query_in_cases M ty reads room online = elim (Option-cases written) [
    | inl bad ↦ (
      (s, err Error.transform_delegate),
      rw (bad, query_in) refl,
      refused Error.transform_delegate refl (inl bad),
    )
    | inr (filters, good) ↦
        let q = query_of filters in
        let len = len_of filters in
        elim (Bool-cases (ltb s.opts.query_size_limit len)) [
          | inl large ↦ (
            (s, err (Error.query_too_large len)),
            rw (good, large, query_in) refl,
            refused (Error.query_too_large len) refl (inr (filters, good, inl (ltb→lt _ _ large))),
          )
          | inr small ↦ elim (Option-cases (codec.encode_message (SerfMessage.query q))) [
            | inl fails ↦ (
              (s, err Error.transform_delegate),
              rw (good, small, fails, query_in) refl,
              refused Error.transform_delegate refl (inr (filters, good, inr fails)),
            )
            | inr (bytes, encoded) ↦
                let (r, done, sent) =
                  send_query-Sent M q (raw_message MessageType.query len bytes) ty refl refl
                    (encode_filters-reads codec (with_defaults default_timeout params).filters
                      filters reads good)
                    room online in
                (
                  r,
                  rw (good, small, encoded, query_in) done,
                  runs sent.resp filters bytes good (not-ltb→le _ _ small) encoded sent.accepted
                      sent.own sent.registered sent.queued sent.clock,
                )
          ]
        ]
  ]
