-- ===== src/Queries/Relay.antt =====
-- `random_members` and `relay_response` of core/src/serf/query.rs. The random numbers are the
-- parameter `draws`, by the round that draws them. The sends run in the order of the members
-- chosen; one that fails is dropped by the code.
use ruserf.Prelude.{
  ℕ, zero, suc, ◌+◌, ◌-◌, ◌*◌, ◌%◌, not, ◌&&◌, Option, none, some, List, [], ◌∷◌, ◌++◌, map, Eq,
  ◌==◌, ltb, leb, nat_eq, length, get_elem?, set, take, retain, if◌then◌else◌,
}
use ruserf.Types.{Bytes, MessageType, Node, Member, QueryResponseMessage}
use ruserf.Serf.{Serf, SerfMessage, Codec}
use ruserf.Members.Base.{is_alive, status_of}
use ruserf.Queries.Wire.{type_byte, padded}

module _ {ℓ} {A : Type ℓ} where
  -- `slice::swap`, on indices within the list.
  unfoldable pub swap : List A → ℕ → ℕ → List A
  swap xs i j = elim (get_elem? xs i) [
    | none ↦ xs
    | some a ↦ elim (get_elem? xs j) [ none ↦ xs | some b ↦ set (set xs i b) j a ]
  ]

  -- The loop from round `i` on; it makes at most `fuel` rounds.
  unfoldable pub shuffle : (fuel k n : ℕ) → (draws : ℕ → ℕ) → (i : ℕ) → List A → List A
  unfolding swap
  shuffle zero k n draws i members = members
  shuffle (suc fuel) k n draws i members =
      let members' = swap members i (draws i % (n - i) + i) in
      let rest = shuffle fuel k n draws (i + 1) members' in
      if ltb i (3 * n) && ltb i n
      then (if leb k (i + 1) && leb (3 * n) (i + 1) then members' else rest)
      else members

  unfoldable pub random_members : (draws : ℕ → ℕ) → ℕ → List A → List A
  unfolding shuffle
  random_members draws k [] = []
  random_members draws k (m ∷ ms) =
      let n = length (m ∷ ms) in take k (shuffle n k n draws 0 (m ∷ ms))

module _ {I A : Type 0} ⦃e : Eq I⦄ where
  -- The members that a response may be relayed through: alive, and not the local node.
  unfoldable pub relay_candidates : Serf I A → List (Member I A)
  relay_candidates s =
      map (λ x. x.1.member)
        (retain (λ x. is_alive (status_of x.1) && not (x.0 == s.local_node.id)) s.members.states)

  module _ (codec : Codec I A) where
    -- The size that the code expects of a relayed response.
    abbrev pub relayed_len : Node I A → QueryResponseMessage I A → ℕ
    relayed_len node resp =
        1
        + codec.node_encoded_len node
        + 1
        + codec.message_encoded_len (SerfMessage.query_response resp)

    -- The buffer of a relayed response: two bytes longer than what is expected.
    unfoldable pub relayed : Node I A → QueryResponseMessage I A → Option Bytes
    relayed node resp = elim (codec.encode_node node) [
      | none ↦ none
      | some node_bytes ↦ elim (codec.encode_message (SerfMessage.query_response resp)) [
        | none ↦ none
        | some resp_bytes ↦ some (
            padded (relayed_len node resp + 1 + 1) (
              type_byte MessageType.relay ∷ node_bytes
              ++ type_byte MessageType.query_response ∷ resp_bytes))
      ]
    ]

    -- The response sent to some of the candidates; `none` is an error, which changes nothing.
    unfoldable pub relay_to :
        (draws : ℕ → ℕ)
        → ℕ
        → Node I A
        → QueryResponseMessage I A
        → Serf I A
        → List (Member I A)
        → Option (Serf I A)
    unfolding relayed random_members
    relay_to draws relay_factor node resp s [] = some s
    relay_to draws relay_factor node resp s (c ∷ cs) =
        if ltb s.opts.query_response_size_limit (relayed_len node resp)
        then none
        else elim (relayed node resp) [
          | none ↦ none
          | some raw ↦
              let peers = random_members draws relay_factor (c ∷ cs) in
              some (record s { sends = s.sends ++ map (λ m. (m.node.address, raw)) peers })
        ]

    unfoldable pub relay_response :
        (draws : ℕ → ℕ) → ℕ → Node I A → QueryResponseMessage I A → Serf I A → Option (Serf I A)
    unfolding relay_candidates relay_to
    relay_response draws relay_factor node resp s =
        if relay_factor == 0
        then some s
        else if ltb (length s.members.states) (relay_factor + 1)
        then some s
        else relay_to draws relay_factor node resp s (relay_candidates s)
