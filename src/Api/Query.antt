-- ===== src/Api/Query.antt =====
-- `query_in` of core/src/serf/base.rs, and `encode_filters` of core/src/serf/query.rs. The default
-- timeout, which the code computes with floating-point numbers, the random id and the number of online
-- members are arguments. `none` is a panic.
use ruserf.Prelude.{
  ℕ, Bool, false, Option, none, some, List, [], ◌∷◌, ◌++◌, Eq, ◌==◌, nat_eq, ltb, if◌then◌else◌,
}
use ruserf.Types.{Bytes, MessageType, QueryMessage, InternalQueryEvent}
use ruserf.Serf.{Serf, SerfMessage, QueryResponse, Filter, Codec}
use ruserf.Queries.Handler.{handle_query}
use ruserf.Queries.Response.{from_query, register_query_response}
use ruserf.Api.{Error, Result, ok, err}
use ruserf.Api.Broadcast.{raw_message}

pub record QueryParam (I : Type 0) : Type 0 where
  pub filters : List (Filter I)
  pub request_ack : Bool
  pub relay_factor : ℕ
  pub timeout : ℕ

-- `default_query_param`, and the default for a timeout of zero.
abbrev pub with_defaults : {I : Type 0} → ℕ → Option (QueryParam I) → QueryParam I
with_defaults default_timeout none = record {
  filters = [];
  request_ack = false;
  relay_factor = 0;
  timeout = default_timeout;
}
with_defaults default_timeout (some p) =
    if p.timeout == 0 then record p { timeout = default_timeout } else p

module _ {I A : Type 0} where
  unfoldable pub encode_filters : Codec I A → List (Filter I) → Option (List Bytes)
  encode_filters codec [] = some []
  encode_filters codec (f ∷ fs) = elim (codec.encode_filter f) [
    | none ↦ none
    | some bytes ↦ elim (encode_filters codec fs) [ none ↦ none | some rest ↦ some (bytes ∷ rest) ]
  ]

  abbrev pub new_query :
      QueryParam I → List Bytes → (id : ℕ) → (name payload : Bytes) → Serf I A → QueryMessage I A
  new_query p filters id name payload s = record {
    ltime = s.query_clock;
    id = id;
    from = s.local_node;
    filters = filters;
    flags = record { ack = p.request_ack; no_broadcast = false };
    relay_factor = p.relay_factor;
    timeout = p.timeout;
    name = name;
    payload = payload;
  }

module _ {I A M : Type 0} ⦃e : Eq I⦄ ⦃a : Eq A⦄ (codec : Codec I A) (draws : ℕ → ℕ)
    (default_timeout id num_nodes now : ℕ) where
  -- What follows once the query is encoded.
  unfoldable pub send_query :
      QueryMessage I A
      → Bytes
      → Option (InternalQueryEvent I)
      → Serf I A
      → Option (Serf I A × Result M (QueryResponse I A))
  unfolding register_query_response handle_query
  send_query q raw ty s = elim (from_query q num_nodes now) [
    | none ↦ none
    | some resp ↦ elim (handle_query codec draws q ty (register_query_response resp s)) [
      | none ↦ none
      | some handled ↦
          some (
            record handled.0 { query_broadcasts = handled.0.query_broadcasts ++ raw ∷ [] },
            ok resp,
          )
    ]
  ]

  unfoldable pub query_in :
      Bytes
      → Bytes
      → Option (QueryParam I)
      → Option (InternalQueryEvent I)
      → Serf I A
      → Option (Serf I A × Result M (QueryResponse I A))
  unfolding encode_filters send_query
  query_in name payload params ty s =
      let p = with_defaults default_timeout params in
      elim (encode_filters codec p.filters) [
        | none ↦ some (s, err Error.transform_delegate)
        | some filters ↦
            let q = new_query p filters id name payload s in
            let len = codec.message_encoded_len (SerfMessage.query q) in
            if ltb s.opts.query_size_limit len
            then some (s, err (Error.query_too_large len))
            else elim (codec.encode_message (SerfMessage.query q)) [
              | none ↦ some (s, err Error.transform_delegate)
              | some bytes ↦ send_query q (raw_message MessageType.query len bytes) ty s
            ]
      ]
