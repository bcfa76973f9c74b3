-- ===== src/Queries/Answers.antt =====
-- The answers to a query (`QueryResponse` of core/src/serf/query.rs): what one response does.
use ruserf.Prelude.{
  ℕ, ◌<◌, ◌≡◌, refl, false, some, List, [], ◌∷◌, ◌++◌, map, arith, Eq, nat_eq, ltb, ltb→lt, length,
  contains, Bool-cases, Option-cases, inl, inr,
}
use ruserf.Types.{Node, QueryResponseMessage, node_eq}
use ruserf.Serf.{QueryResponse, NodeResponse, Channel}
use ruserf.Queries.Response.{poll_send, finished, send_response, send_ack, take_response}

module _ {I A : Type 0} where
  pub map-from-append :
      (xs : List (NodeResponse I A)) (x : NodeResponse I A)
      → map (λ n. n.from) (xs ++ x ∷ []) ≡ map (λ n. n.from) xs ++ x.from ∷ []
  map-from-append [] x = refl
  map-from-append (y ∷ xs) x = rw (map-from-append xs x) refl

module _ {I A : Type 0} ⦃e : Eq I⦄ ⦃a : Eq A⦄ where
  -- What a response does: nothing; or it records an ack; or it records and sends an answer.
  pub data Outcome (resp : QueryResponseMessage I A) (now : ℕ) (r r' : QueryResponse I A)
      : Type 0 where
    ignored : r' ≡ r → Outcome resp now r r'
    acked :
        (ch : Channel (Node I A))
        → finished now r ≡ false
        → contains resp.from r.acks ≡ false
        → r.ack_ch ≡ some ch
        → length ch.queue < ch.capacity
        → r' ≡ record r {
          ack_ch = some (record ch { queue = ch.queue ++ resp.from ∷ [] });
          acks = r.acks ++ resp.from ∷ [];
        }
        → Outcome resp now r r'
    answered :
        finished now r ≡ false
        → contains resp.from r.responses ≡ false
        → length r.resp_ch.queue < r.resp_ch.capacity
        → r' ≡ record r {
          resp_ch = record r.resp_ch {
            queue = r.resp_ch.queue ++ record { from = resp.from; payload = resp.payload } ∷ [];
          };
          responses = r.responses ++ resp.from ∷ [];
        }
        → Outcome resp now r r'

  send_ack-Outcome :
      (resp : QueryResponseMessage I A) (now : ℕ) (r : QueryResponse I A)
      → finished now r ≡ false
      → ((ch : Channel (Node I A)) → r.ack_ch ≡ some ch → ch.closed ≡ r.closed)
      → Outcome resp now r (send_ack resp r).0
  unfolding send_ack poll_send
  send_ack-Outcome resp now r running same = elim (Bool-cases (contains resp.from r.acks)) [
    | inl dup ↦ ignored (ground arith)
    | inr new ↦ elim (Bool-cases r.closed) [
      | inl over ↦ ignored (ground arith)
      | inr live ↦ elim (Option-cases r.ack_ch) [
        | inl deaf ↦ ignored (ground arith)
        | inr (ch, is_ch) ↦
            let shut = same ch is_ch in
            elim (Bool-cases (ltb (length ch.queue) ch.capacity)) [
              | inl room ↦ acked ch running new is_ch (ltb→lt _ _ room) (ground arith)
              | inr full ↦ ignored (ground arith)
            ]
      ]
    ]
  ]

  send_response-Outcome :
      (resp : QueryResponseMessage I A) (now : ℕ) (r : QueryResponse I A)
      → finished now r ≡ false
      → r.resp_ch.closed ≡ r.closed
      → Outcome resp now r (send_response (record { from = resp.from; payload = resp.payload }) r).0
  unfolding send_response poll_send
  send_response-Outcome resp now r running same =
      elim (Bool-cases (contains resp.from r.responses)) [
        | inl dup ↦ ignored (ground arith)
        | inr new ↦ elim (Bool-cases r.closed) [
          | inl over ↦ ignored (ground arith)
          | inr live ↦ elim (Bool-cases (ltb (length r.resp_ch.queue) r.resp_ch.capacity)) [
            | inl room ↦ answered running new (ltb→lt _ _ room) (ground arith)
            | inr full ↦ ignored (ground arith)
          ]
        ]
      ]

  pub take_response-Outcome :
      (resp : QueryResponseMessage I A) (now : ℕ) (r : QueryResponse I A)
      → r.resp_ch.closed ≡ r.closed
      → ((ch : Channel (Node I A)) → r.ack_ch ≡ some ch → ch.closed ≡ r.closed)
      → Outcome resp now r (take_response resp now r)
  unfolding take_response
  take_response-Outcome resp now r same same_ack = elim (Bool-cases (finished now r)) [
    | inl over ↦ ignored (ground arith)
    | inr running ↦ elim (Bool-cases resp.flags.ack) [
      | inl ack ↦ elim (Bool-cases (contains resp.from r.acks)) [
        | inl dup ↦ ignored (ground arith)
        | inr new ↦
            let step : take_response resp now r ≡ (send_ack resp r).0 = ground arith in
            rw step (send_ack-Outcome resp now r running same_ack)
      ]
      | inr answer ↦ elim (Bool-cases (contains resp.from r.responses)) [
        | inl dup ↦ ignored (ground arith)
        | inr new ↦
            let step : take_response resp now r
                ≡ (send_response (record { from = resp.from; payload = resp.payload }) r).0 =
              ground arith in
            rw step (send_response-Outcome resp now r running same)
      ]
    ]
  ]
