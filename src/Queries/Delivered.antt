-- ===== src/Queries/Delivered.antt =====
-- The answers to a query (`QueryResponse` of core/src/serf/query.rs) over any sequence of incoming
-- responses, reads of the channels of responses and of acks by the one who asked, and closings.
use ruserf.Prelude.{
  Option, Option-cases, ℕ, ◌≤◌, ◌≡◌, refl, sym, ap, ◌∙◌, Bool, true, false, none, some, List, [],
  ◌∷◌, ◌++◌, map, arith, Eq, length, if◌then◌else◌, Bool-cases, inl, inr, length-append, IsDistinct,
  IsDistinct-push,
}
use mathlib.Core.List.{append_assoc}
use ruserf.Types.{Node, QueryResponseMessage, node_eq}
use ruserf.Serf.{QueryResponse, NodeResponse, Channel}
use ruserf.Queries.Response.{bounded, close_channel, new_response, close, take_response}
use ruserf.Queries.Answers.{
  map-from-append, Outcome, ignored, acked, answered, take_response-Outcome,
}

-- The query as the one who asked sees it: the answers and the acks read so far, and the shared state.
pub record View (I A : Type 0) : Type 0 where
  pub answers : List (NodeResponse I A)
  pub acks : List (Node I A)
  pub query : QueryResponse I A

pub data Step (I A : Type 0) : Type 0 where
  respond : QueryResponseMessage I A → (now : ℕ) → Step I A
  read read_ack shut : Step I A

module _ {I A : Type 0} where
  -- The acks that wait to be read.
  abbrev pub waiting_acks : Option (Channel (Node I A)) → List (Node I A)
  waiting_acks none = []
  waiting_acks (some ch) = ch.queue

  abbrev pub Fits : Option (Channel (Node I A)) → Type 0
  Fits none = Unit
  Fits (some ch) = length ch.queue ≤ ch.capacity

  abbrev closed_of : Channel (Node I A) → Option (Channel (Node I A)) → Bool
  closed_of ch none = ch.closed
  closed_of ch (some c) = c.closed

  abbrev pub view : QueryResponse I A → View I A
  view r = record { answers = []; acks = []; query = r }

module _ {I A : Type 0} ⦃e : Eq I⦄ ⦃a : Eq A⦄ where
  abbrev read_one : View I A → List (NodeResponse I A) → View I A
  read_one v [] = v
  read_one v (x ∷ xs) = record v {
    answers = v.answers ++ x ∷ [];
    query = record v.query { resp_ch = record v.query.resp_ch { queue = xs } };
  }

  abbrev pop_ack : View I A → Channel (Node I A) → List (Node I A) → View I A
  pop_ack v ch [] = v
  pop_ack v ch (x ∷ xs) = record v {
    acks = v.acks ++ x ∷ [];
    query = record v.query { ack_ch = some (record ch { queue = xs }) };
  }

  abbrev read_one_ack : View I A → Option (Channel (Node I A)) → View I A
  read_one_ack v none = v
  read_one_ack v (some ch) = pop_ack v ch ch.queue

  unfoldable pub step : Step I A → View I A → View I A
  unfolding take_response close
  step (respond resp now) v = record v { query = take_response resp now v.query }
  step read v = read_one v v.query.resp_ch.queue
  step read_ack v = read_one_ack v v.query.ack_ch
  step shut v = record v { query = close v.query }

  unfoldable pub run : List (Step I A) → View I A → View I A
  unfolding step
  run [] v = v
  run (x ∷ xs) v = run xs (step x v)

  -- What holds of a running or a closed query.
  pub record IsValid (v : View I A) : Type 0 where
    pub delivered : map (λ n. n.from) (v.answers ++ v.query.resp_ch.queue) ≡ v.query.responses
    pub acked : v.acks ++ waiting_acks v.query.ack_ch ≡ v.query.acks
    pub once : IsDistinct v.query.responses
    pub acked_once : IsDistinct v.query.acks
    pub within : length v.query.resp_ch.queue ≤ v.query.resp_ch.capacity
    pub acks_within : Fits v.query.ack_ch
    pub closing : v.query.resp_ch.closed ≡ v.query.closed
    pub acks_closing :
        (ch : Channel (Node I A)) → v.query.ack_ch ≡ some ch → ch.closed ≡ v.query.closed

  respond-IsValid :
      (resp : QueryResponseMessage I A) (now : ℕ) (v : View I A) (r : QueryResponse I A)
      → IsValid v
      → Outcome resp now v.query r
      → IsValid (record v { query = r })
  respond-IsValid resp now v r k (ignored same) = rw same k
  respond-IsValid resp now v r k (acked ch running new is_ch room same) =
      let before : v.acks ++ ch.queue ≡ v.query.acks =
        ap (λ o. v.acks ++ waiting_acks o) (sym is_ch) ∙ k.acked in
      let shut = k.acks_closing ch is_ch in
      rw same record {
        delivered = k.delivered;
        acked =
            sym (append_assoc v.acks ch.queue (resp.from ∷ []))
            ∙ ap (λ l. l ++ resp.from ∷ []) before;
        once = k.once;
        acked_once = IsDistinct-push resp.from v.query.acks k.acked_once new;
        within = k.within;
        acks_within = omega (arith, length-append ch.queue (resp.from ∷ []));
        closing = k.closing;
        acks_closing = λ c at. ap (λ o. closed_of ch o) (sym at) ∙ shut;
      }
  respond-IsValid resp now v r k (answered running new room same) =
      let x : NodeResponse I A = record { from = resp.from; payload = resp.payload } in
      rw same record {
        delivered =
            ap (map (λ n. n.from)) (sym (append_assoc v.answers v.query.resp_ch.queue (x ∷ [])))
            ∙ map-from-append (v.answers ++ v.query.resp_ch.queue) x
            ∙ ap (λ l. l ++ resp.from ∷ []) k.delivered;
        acked = k.acked;
        once = IsDistinct-push resp.from v.query.responses k.once new;
        acked_once = k.acked_once;
        within = omega (arith, length-append v.query.resp_ch.queue (x ∷ []));
        acks_within = k.acks_within;
        closing = k.closing;
        acks_closing = k.acks_closing;
      }

  read_one-IsValid :
      (v : View I A) (xs : List (NodeResponse I A))
      → v.query.resp_ch.queue ≡ xs
      → IsValid v
      → IsValid (read_one v xs)
  read_one-IsValid v [] same k = k
  read_one-IsValid v (x ∷ xs) same k = record {
    delivered =
        ap (map (λ n. n.from)) (append_assoc v.answers (x ∷ []) xs)
        ∙ ap (λ q. map (λ n. n.from) (v.answers ++ q)) (sym same)
        ∙ k.delivered;
    acked = k.acked;
    once = k.once;
    acked_once = k.acked_once;
    within = (let most = k.within in let n = ap length same in omega arith);
    acks_within = k.acks_within;
    closing = k.closing;
    acks_closing = k.acks_closing;
  }

  pop_ack-IsValid :
      (v : View I A) (ch : Channel (Node I A)) (xs : List (Node I A))
      → v.query.ack_ch ≡ some ch
      → ch.queue ≡ xs
      → IsValid v
      → IsValid (pop_ack v ch xs)
  pop_ack-IsValid v ch [] is_ch same k = k
  pop_ack-IsValid v ch (x ∷ xs) is_ch same k =
      let shut = k.acks_closing ch is_ch in
      let room : length ch.queue ≤ ch.capacity = let most = k.acks_within in rw is_ch at most in
      record {
        delivered = k.delivered;
        acked =
            append_assoc v.acks (x ∷ []) xs
            ∙ ap (λ q. v.acks ++ q) (sym same)
            ∙ ap (λ o. v.acks ++ waiting_acks o) (sym is_ch)
            ∙ k.acked;
        once = k.once;
        acked_once = k.acked_once;
        within = k.within;
        acks_within = (let n = ap length same in omega arith);
        closing = k.closing;
        acks_closing = λ c at. ap (λ o. closed_of ch o) (sym at) ∙ shut;
      }

  read_one_ack-IsValid :
      (v : View I A) (o : Option (Channel (Node I A)))
      → v.query.ack_ch ≡ o
      → IsValid v
      → IsValid (read_one_ack v o)
  read_one_ack-IsValid v none is_ch k = k
  read_one_ack-IsValid v (some ch) is_ch k = pop_ack-IsValid v ch ch.queue is_ch refl k

  close-IsValid : (v : View I A) → IsValid v → IsValid (record v { query = close v.query })
  unfolding close
  close-IsValid v k = elim (Bool-cases v.query.closed) [
    | inl over ↦ let same : close v.query ≡ v.query = ground arith in rw same k
    | inr live ↦ elim (Option-cases v.query.ack_ch) [
      | inl deaf ↦
          let same : close v.query ≡ record v.query {
            closed = true;
            ack_ch = none;
            resp_ch = close_channel v.query.resp_ch;
          } =
            ground arith in
          rw same record {
            delivered = k.delivered;
            acked = ap (λ o. v.acks ++ waiting_acks o) (sym deaf) ∙ k.acked;
            once = k.once;
            acked_once = k.acked_once;
            within = k.within;
            acks_within = tt;
            closing = refl;
            acks_closing = λ c at. cc;
          }
      | inr (ch, is_ch) ↦
          let same : close v.query ≡ record v.query {
            closed = true;
            ack_ch = some (close_channel ch);
            resp_ch = close_channel v.query.resp_ch;
          } =
            ground arith in
          let room : length ch.queue ≤ ch.capacity = let most = k.acks_within in rw is_ch at most in
          rw same record {
            delivered = k.delivered;
            acked = ap (λ o. v.acks ++ waiting_acks o) (sym is_ch) ∙ k.acked;
            once = k.once;
            acked_once = k.acked_once;
            within = k.within;
            acks_within = room;
            closing = refl;
            acks_closing = λ c at. ap (λ o. closed_of (close_channel ch) o) (sym at);
          }
    ]
  ]

  step-IsValid : (x : Step I A) (v : View I A) → IsValid v → IsValid (step x v)
  unfolding step
  step-IsValid (respond resp now) v k =
      respond-IsValid resp now v (take_response resp now v.query) k
        (take_response-Outcome resp now v.query k.closing k.acks_closing)
  step-IsValid read v k = read_one-IsValid v v.query.resp_ch.queue refl k
  step-IsValid read_ack v k = read_one_ack-IsValid v v.query.ack_ch refl k
  step-IsValid shut v k = close-IsValid v k

  run-IsValid : (xs : List (Step I A)) (v : View I A) → IsValid v → IsValid (run xs v)
  unfolding run
  run-IsValid [] v k = k
  run-IsValid (x ∷ xs) v k = run-IsValid xs (step x v) (step-IsValid x v k)

  -- From a new query on, whatever responses, reads and closings follow: the nodes whose answers were
  -- read or wait in the channel are those recorded as having answered, the acks that were read or wait
  -- are those recorded, no node is among either twice, and neither channel holds more than its
  -- capacity.
  pub answered_once :
      (id ltime num_nodes deadline : ℕ) (ack : Bool) (r : QueryResponse I A) (xs : List (Step I A))
      → new_response id ltime num_nodes deadline ack ≡ some r
      → IsValid (run xs (view r))
  unfolding new_response
  answered_once id ltime num_nodes deadline ack r xs h =
      let same : r ≡ record {
        deadline = deadline;
        id = id;
        ltime = ltime;
        closed = false;
        acks = [];
        responses = [];
        ack_ch = if ack then some (bounded num_nodes) else none;
        resp_ch = bounded num_nodes;
      } =
        ground arith in
      run-IsValid xs (view r) (rw same (fresh ack))
    where
      fresh :
          (ack' : Bool)
          → IsValid (
              view (record {
                deadline = deadline;
                id = id;
                ltime = ltime;
                closed = false;
                acks = [];
                responses = [];
                ack_ch = if ack' then some (bounded num_nodes) else none;
                resp_ch = bounded num_nodes;
              }))
      fresh true = record {
        delivered = refl;
        acked = refl;
        once = λ n. omega arith;
        acked_once = λ n. omega arith;
        within = omega arith;
        acks_within = omega arith;
        closing = refl;
        acks_closing = λ c at. ap (λ o. closed_of (bounded num_nodes) o) (sym at);
      }
      fresh false = record {
        delivered = refl;
        acked = refl;
        once = λ n. omega arith;
        acked_once = λ n. omega arith;
        within = omega arith;
        acks_within = tt;
        closing = refl;
        acks_closing = λ c at. cc;
      }
