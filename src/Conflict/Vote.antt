-- ===== src/Conflict/Vote.antt =====
-- The vote on a conflict of ids: whom a node counts, when it stays, and what the others answer.
use ruserf.Prelude.{
  ℕ, ◌+◌, ◌*◌, ◌/◌, ◌<◌, ◌≤◌, ◌≡◌, ◌⊎◌, inl, inr, refl, ap, ◌∙◌, Option, none, some, List, [], ◌∷◌,
  Eq, ◌==◌, nat_eq, leb, length, count, if◌then◌else◌, arith, Bool-cases,
}
use ruserf.Types.{Bytes, MessageType, SerfState}
use ruserf.Serf.{Serf, SerfMessage, NodeResponse, Codec}
use ruserf.Queries.Wire.{type_byte}
use ruserf.Api.{Result}
use ruserf.Api.Leave.{shutdown}
use ruserf.Api.Lifecycle.{shutdown_as-state}
use ruserf.Conflict.{count_message, count_response, gather, after_vote}

abbrev pub add_vote : {A : Type 0} → Option A → List A → List A
add_vote none vs = vs
add_vote (some v) vs = v ∷ vs

-- What a vote adds to the counters.
abbrev pub tally : {A : Type 0} ⦃a : Eq A⦄ → A → Option A → ℕ × ℕ → ℕ × ℕ
tally local none counts = counts
tally local (some v) (n, k) = (n + 1, (if v == local then k + 1 else k))

module _ {I A : Type 0} where
  -- The address that a response names.
  abbrev pub named : Option (SerfMessage I A) → Option A
  named (some (SerfMessage.conflict_response member)) = some member.node.address
  named _ = none

  abbrev pub vote_of : Codec I A → Bytes → Option A
  vote_of codec [] = none
  vote_of codec (b ∷ body) =
      if b == type_byte MessageType.conflict_response
      then named (codec.decode_message MessageType.conflict_response body)
      else none

  abbrev pub votes : Codec I A → List (NodeResponse I A) → List A
  votes codec [] = []
  votes codec (r ∷ rs) = add_vote (vote_of codec r.payload) (votes codec rs)

module _ {I A : Type 0} ⦃e : Eq I⦄ ⦃a : Eq A⦄ (codec : Codec I A) where
  count_message-tally :
      (local : A) (m : Option (SerfMessage I A)) (c : ℕ × ℕ)
      → count_message codec local m c ≡ tally local (named m) c
  count_message-tally local none c = refl
  count_message-tally local (some (SerfMessage.leave m)) c = refl
  count_message-tally local (some (SerfMessage.join m)) c = refl
  count_message-tally local (some (SerfMessage.push_pull m)) c = refl
  count_message-tally local (some (SerfMessage.user_event m)) c = refl
  count_message-tally local (some (SerfMessage.query m)) c = refl
  count_message-tally local (some (SerfMessage.query_response m)) c = refl
  count_message-tally local (some (SerfMessage.conflict_response m)) c = refl

  count_response-tally :
      (local : A) (payload : Bytes) (c : ℕ × ℕ)
      → count_response codec local payload c ≡ tally local (vote_of codec payload) c
  unfolding count_response
  count_response-tally local [] c = refl
  count_response-tally local (b ∷ body) c =
      elim (Bool-cases (b == type_byte MessageType.conflict_response)) [
        | inl at ↦
            rw (at, count_response)
              (count_message-tally local (codec.decode_message MessageType.conflict_response body)
                c)
        | inr other ↦ rw (other, count_response) refl
      ]

  tally-length :
      (local : A) (o : Option A) (vs : List A) (c : ℕ × ℕ)
      → ((tally local o c).0 + length vs ≡ c.0 + length (add_vote o vs))
        × ((tally local o c).1 + count local vs ≡ c.1 + count local (add_vote o vs))
  tally-length local none vs c = (refl, refl)
  tally-length local (some v) vs c = elim (Bool-cases (v == local)) [
    | inl same ↦ rw same (omega arith, omega arith)
    | inr other ↦ rw other (omega arith, omega arith)
  ]

  pub gather-votes :
      (local : A) (rs : List (NodeResponse I A)) (c : ℕ × ℕ)
      → ((gather codec local rs c).0 ≡ c.0 + length (votes codec rs))
        × ((gather codec local rs c).1 ≡ c.1 + count local (votes codec rs))
  unfolding gather
  gather-votes local [] c = (omega arith, omega arith)
  gather-votes local (r ∷ rs) c =
      let next = count_response codec local r.payload c in
      let same = count_response-tally local r.payload c in
      let rest = gather-votes local rs next in
      let sums = tally-length local (vote_of codec r.payload) (votes codec rs) c in
      (
        rest.0 ∙ ap (λ n. n.0 + length (votes codec rs)) same ∙ sums.0,
        rest.1 ∙ ap (λ n. n.1 + count local (votes codec rs)) same ∙ sums.1,
      )

  -- After the vote, provided that memberlist and the background tasks do not set the state of the node,
  -- it is unchanged if more than half of the votes that were cast are for its address, and is shut down
  -- if not, so also if nobody voted.
  pub after_vote_cases :
      {M : Type 0} (memberlist_shutdown : Serf I A → Serf I A × Result M (Unit {0}))
      (meanwhile : Serf I A → Serf I A) (rs : List (NodeResponse I A)) (s : Serf I A)
      → ((t : Serf I A) → (memberlist_shutdown t).0.state ≡ t.state)
      → ((t : Serf I A) → (meanwhile t).state ≡ t.state)
      → let ayes = count s.local_node.address (votes codec rs) in
        let after = after_vote codec memberlist_shutdown meanwhile rs s in
        ((length (votes codec rs) < 2 * ayes) × (after ≡ s))
        ⊎ ((2 * ayes ≤ length (votes codec rs)) × (after.state ≡ SerfState.shutdown))
  unfolding after_vote shutdown
  after_vote_cases memberlist_shutdown meanwhile rs s stays waits =
      let counts = gather codec s.local_node.address rs (0, 0) in
      let same = gather-votes s.local_node.address rs (0, 0) in
      elim (Bool-cases (leb (counts.0 / 2 + 1) counts.1)) [
        | inl won ↦ inl (ground arith, rw (won, after_vote) refl)
        | inr lost ↦ inr (
          ground arith,
          rw (lost, after_vote)
              (shutdown_as-state memberlist_shutdown meanwhile stays waits s.state s refl),
        )
      ]
