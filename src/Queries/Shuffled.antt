-- ===== src/Queries/Shuffled.antt =====
-- The random choice of members and the relay (`random_members`, `relay_response` of
-- core/src/serf/query.rs): whatever the random numbers, the choice is among the members, without
-- repetition.
use ruserf.Prelude.{
  ◌<◌, ℕ, ◌+◌, ◌≤◌, min, ◌⊎◌, ◌≡◌, true, false, not, ◌&&◌, Option, none, some, List, [], ◌∷◌, ◌++◌,
  map, Eq, ◌==◌, nat_eq, length, get_elem?, retain, All, to_ℕ,
}
use ruserf.Types.{Bytes, Node, Member, MemberState, QueryResponseMessage}
use ruserf.Serf.{Serf, Codec}
use ruserf.Members.Base.{is_alive, status_of}
use ruserf.Queries.Relay.{relayed_len, relayed}

module _ {I A : Type 0} ⦃e : Eq I⦄ where
  -- A member that a response may be relayed through: alive, not the local node, and in the table.
  abbrev pub InTable : List (I × MemberState I A) → Member I A → Type 0
  InTable states m =
      (i : ℕ) × (id : I) × (st : MemberState I A) × (get_elem? states i ≡ some (id, st))
      × (st.member ≡ m)

  abbrev pub IsPeerIn : I → List (I × MemberState I A) → Member I A → Type 0
  IsPeerIn local states m =
      (is_alive m.status ≡ true) × ((m.node.id == local) ≡ false) × InTable states m

  -- How many there are.
  abbrev pub count_peers : I → List (I × MemberState I A) → ℕ
  count_peers local [] = 0
  count_peers local ((id, st) ∷ states) =
      to_ℕ (is_alive st.member.status && not (id == local)) + count_peers local states

  abbrev candidates_in : I → List (I × MemberState I A) → List (Member I A)
  candidates_in local states =
      map (λ x. x.1.member) (retain (λ x. is_alive (status_of x.1) && not (x.0 == local)) states)

  -- What a relay can do: nothing, if none is asked for, the cluster is no larger than the relay factor
  -- or there is no peer; or it fails on a response that is too large or has no encoding; or it sends the
  -- encoded response to peers, as many as asked for or all there are.
  pub data Relay (codec : Codec I A) (factor : ℕ) (node : Node I A)
      (resp : QueryResponseMessage I A) (s : Serf I A) (r : Option (Serf I A)) : Type 0 where
    quiet :
        (factor ≡ 0)
          ⊎ (length s.members.states ≤ factor)
          ⊎ (count_peers s.local_node.id s.members.states ≡ 0)
        → r ≡ some s
        → Relay codec factor node resp s r
    failed :
        (s.opts.query_response_size_limit < relayed_len codec node resp)
          ⊎ (relayed codec node resp ≡ none)
        → r ≡ none
        → Relay codec factor node resp s r
    sent :
        (peers : List (Member I A)) (raw : Bytes)
        → relayed_len codec node resp ≤ s.opts.query_response_size_limit
        → relayed codec node resp ≡ some raw
        → length peers ≡ min factor (count_peers s.local_node.id s.members.states)
        → All (IsPeerIn s.local_node.id s.members.states) peers
        → r ≡ some (record s { sends = s.sends ++ map (λ m. (m.node.address, raw)) peers })
        → Relay codec factor node resp s r
