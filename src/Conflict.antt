-- ===== src/Conflict.antt =====
-- Conflicts of ids: `handle_node_conflict` and `resolve_node_conflict` of core/src/serf/base.rs, on the
-- node that memberlist reports as one of two with its id, and `handle_conflict` of
-- core/src/serf/internal_query.rs, on the nodes that it asks. The task that resolves the conflict is
-- run as a whole, with what happens to the state while it gathers responses as the parameter
-- `gathering`, and the responses that came in as a list.
pub mod Vote
use ruserf.Prelude.{
  any, ◌&&◌, false, ℕ, ◌+◌, ◌/◌, Bool, Option, none, some, List, [], ◌∷◌, Eq, ◌==◌, nat_eq, leb,
  lookup, if◌then◌else◌,
}
use ruserf.Types.{Bytes, MessageType, InternalQueryEvent, QueryEvent, NodeState}
use ruserf.Serf.{Serf, SerfMessage, NodeResponse, QueryResponse, Codec}
use ruserf.Queries.Wire.{type_byte}
use ruserf.Queries.Respond.{respond}
use ruserf.Api.{Result, ok, err}
use ruserf.Api.Broadcast.{raw_message}
use ruserf.Api.Leave.{shutdown}
use ruserf.Api.Query.{query_in}
use ruserf.Delegate.Notify.{internal_conflict}

module _ {I A : Type 0} ⦃e : Eq I⦄ ⦃a : Eq A⦄ (codec : Codec I A) where
  -- The counters: the responses, and those that name the local address.
  abbrev pub count_message : A → Option (SerfMessage I A) → ℕ × ℕ → ℕ × ℕ
  count_message local (some (SerfMessage.conflict_response member)) (responses, matching) =
      (responses + 1, (if member.node.address == local then matching + 1 else matching))
  count_message local _ counts = counts

  unfoldable pub count_response : A → Bytes → ℕ × ℕ → ℕ × ℕ
  count_response local [] counts = counts
  count_response local (b ∷ body) counts =
      if b == type_byte MessageType.conflict_response
      then count_message local (codec.decode_message MessageType.conflict_response body) counts
      else counts

  -- The loop over the responses.
  unfoldable pub gather : A → List (NodeResponse I A) → ℕ × ℕ → ℕ × ℕ
  unfolding count_response
  gather local [] counts = counts
  gather local (r ∷ rs) counts = gather local rs (count_response local r.payload counts)

  -- Whether a response panics the decoder, which ends the task.
  abbrev pub panics_at : NodeResponse I A → Bool
  panics_at r = elim r.payload [
    | [] ↦ false
    | b ∷ body ↦
        (b == type_byte MessageType.conflict_response)
        && codec.message_panics MessageType.conflict_response body
  ]

  module _ {M : Type 0} (memberlist_shutdown : Serf I A → Serf I A × Result M (Unit {0}))
      (meanwhile : Serf I A → Serf I A) where
    -- What follows the query, if no response panics: the node shuts down unless it has a majority.
    unfoldable pub after_vote : List (NodeResponse I A) → Serf I A → Serf I A
    unfolding gather shutdown
    after_vote rs s =
        let (responses, matching) = gather s.local_node.address rs (0, 0) in
        if leb (responses / 2 + 1) matching then s else (shutdown memberlist_shutdown meanwhile s).0

    module _ (draws : ℕ → ℕ) (default_timeout id num_nodes now : ℕ) where
      -- The query is out, or has failed to start.
      abbrev pub after_query :
          (Serf I A → Serf I A)
          → List (NodeResponse I A)
          → Serf I A × Result M (QueryResponse I A)
          → Serf I A
      unfolding after_vote
      after_query gathering rs (started, err x) = started
      after_query gathering rs (started, ok resp) =
          let voted = after_vote rs (gathering started) in
          if any panics_at rs then gathering started else voted

      -- `encoded` is the local id as the delegate encodes it; `none` is a panic of the query.
      unfoldable pub resolve_node_conflict :
          Option Bytes
          → (Serf I A → Serf I A)
          → List (NodeResponse I A)
          → Serf I A
          → Option (Serf I A)
      unfolding query_in after_vote
      resolve_node_conflict none gathering rs s = some s
      resolve_node_conflict (some payload) gathering rs s =
          let ty : InternalQueryEvent I = InternalQueryEvent.conflict s.local_node.id in
          elim (query_in {M = M} codec draws default_timeout id num_nodes now internal_conflict
            payload none (some ty) s) [ none ↦ none | some r ↦ some (after_query gathering rs r) ]

      -- `enabled` is the option `enable_id_conflict_resolution`.
      unfoldable pub handle_node_conflict :
          (enabled : Bool)
          → NodeState I A
          → Option Bytes
          → (Serf I A → Serf I A)
          → List (NodeResponse I A)
          → Serf I A
          → Option (Serf I A)
      unfolding resolve_node_conflict
      handle_node_conflict enabled existing encoded gathering rs s =
          if existing.node.id == s.local_node.id
          then (if enabled then resolve_node_conflict encoded gathering rs s else some s)
          else some s

  -- The payload of the answer; `none` if there is no answer.
  unfoldable pub conflict_payload : I → Serf I A → Option Bytes
  conflict_payload conflict s =
      if conflict == s.local_node.id then none else elim (lookup conflict s.members.states) [
        | none ↦ some []
        | some state ↦
            let m : SerfMessage I A = SerfMessage.conflict_response state.member in
            elim (codec.encode_message m) [
              | none ↦ none
              | some bytes ↦
                  some
                    (raw_message MessageType.conflict_response (codec.message_encoded_len m) bytes)
            ]
      ]

  unfoldable pub handle_conflict :
      (draws : ℕ → ℕ)
      → (now : ℕ) → (can_send : Bool) → I
      → QueryEvent I A
      → Option ℕ × Serf I A
      → Option ℕ × Serf I A
  unfolding conflict_payload respond
  handle_conflict draws now can_send conflict ev (span, s) = elim (conflict_payload conflict s) [
    | none ↦ (span, s)
    | some payload ↦ (respond codec draws now can_send ev payload (span, s)).0
  ]
