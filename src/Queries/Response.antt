-- ===== src/Queries/Response.antt =====
-- `QueryResponse` of core/src/serf/query.rs, and `handle_query_response` and
-- `register_query_response` of core/src/serf/base.rs. A response is shared between the table of
-- running queries and the one who asked: its entry in the table stands for it.
use ruserf.Prelude.{
  ℕ, ◌+◌, Bool, true, false, ◌||◌, Option, none, some, [], ◌∷◌, ◌++◌, Eq, ◌==◌, ltb, nat_eq, length,
  contains, lookup, insert, remove, if◌then◌else◌,
}
use ruserf.Types.{QueryMessage, QueryResponseMessage, node_eq}
use ruserf.Serf.{Serf, QueryResponse, NodeResponse, Channel}

-- A send that is polled once: `none` if it would wait, since the channel is full. A closed channel
-- drops the message, and the code takes that for success.
unfoldable pub poll_send : {M : Type 0} → M → Channel M → Option (Channel M)
poll_send m ch =
    if ch.closed
    then some ch
    else if ltb (length ch.queue) ch.capacity
    then some (record ch { queue = ch.queue ++ m ∷ [] })
    else none

abbrev pub bounded : {M : Type 0} → ℕ → Channel M
bounded n = record { capacity = n; queue = []; closed = false }

abbrev pub close_channel : {M : Type 0} → Channel M → Channel M
close_channel ch = record ch { closed = true }

module _ {I A : Type 0} where
  -- `new`; `none` is the panic of a channel without capacity.
  unfoldable pub new_response :
      (id ltime num_nodes deadline : ℕ) → Bool → Option (QueryResponse I A)
  new_response id ltime num_nodes deadline ack =
      if num_nodes == 0
      then none
      else some (record {
        deadline = deadline;
        id = id;
        ltime = ltime;
        closed = false;
        acks = [];
        responses = [];
        ack_ch = if ack then some (bounded num_nodes) else none;
        resp_ch = bounded num_nodes;
      })

  -- `from_query`
  abbrev pub from_query : QueryMessage I A → (num_nodes now : ℕ) → Option (QueryResponse I A)
  unfolding new_response
  from_query q num_nodes now = new_response q.id q.ltime num_nodes (now + q.timeout) q.flags.ack

  abbrev pub finished : ℕ → QueryResponse I A → Bool
  finished now r = r.closed || ltb r.deadline now

  unfoldable pub close : QueryResponse I A → QueryResponse I A
  close r = if r.closed then r else record r {
    closed = true;
    ack_ch = elim r.ack_ch [ none ↦ none | some ch ↦ some (close_channel ch) ];
    resp_ch = close_channel r.resp_ch;
  }

module _ {I A : Type 0} ⦃e : Eq I⦄ ⦃a : Eq A⦄ where
  -- The result says whether the answer is `Ok`.
  unfoldable pub send_response : NodeResponse I A → QueryResponse I A → QueryResponse I A × Bool
  unfolding poll_send
  send_response nr r =
      if contains nr.from r.responses
      then (r, true)
      else if r.closed
      then (r, true)
      else elim (poll_send nr r.resp_ch) [
        | none ↦ (r, false)
        | some ch ↦ (record r { resp_ch = ch; responses = r.responses ++ nr.from ∷ [] }, true)
      ]

  unfoldable pub send_ack : QueryResponseMessage I A → QueryResponse I A → QueryResponse I A × Bool
  unfolding poll_send
  send_ack nr r =
      if contains nr.from r.acks then (r, true) else if r.closed then (r, true) else elim r.ack_ch [
        | none ↦ (r, true)
        | some ack_ch ↦ elim (poll_send nr.from ack_ch) [
          | none ↦ (r, false)
          | some ch ↦ (record r { ack_ch = some ch; acks = r.acks ++ nr.from ∷ [] }, true)
        ]
      ]

  -- The method of `QueryResponse`.
  unfoldable pub take_response :
      QueryResponseMessage I A → ℕ → QueryResponse I A → QueryResponse I A
  unfolding send_response send_ack
  take_response resp now r =
      if finished now r
      then r
      else if resp.flags.ack
      then (if contains resp.from r.acks then r else (send_ack resp r).0)
      else if contains resp.from r.responses
      then r
      else (send_response (record { from = resp.from; payload = resp.payload }) r).0

  -- The method of `Serf`.
  unfoldable pub handle_query_response : QueryResponseMessage I A → ℕ → Serf I A → Serf I A
  unfolding take_response
  handle_query_response resp now s = elim (lookup resp.ltime s.query_core.responses) [
    | none ↦ s
    | some query ↦
        if query.id == resp.id
        then record s {
          query_core = record s.query_core {
            responses = insert resp.ltime (take_response resp now query) s.query_core.responses;
          };
        }
        else s
  ]

  unfoldable pub register_query_response : QueryResponse I A → Serf I A → Serf I A
  register_query_response resp s = record s {
    query_core = record s.query_core { responses = insert resp.ltime resp s.query_core.responses };
  }

  -- The timer of `register_query_response`: the entry is removed, and closed.
  unfoldable pub expire : ℕ → Serf I A → Serf I A × Option (QueryResponse I A)
  unfolding close
  expire ltime s = elim (lookup ltime s.query_core.responses) [
    | none ↦ (s, none)
    | some resp ↦ (
      record s {
        query_core = record s.query_core { responses = remove ltime s.query_core.responses };
      },
      some (close resp),
    )
  ]
