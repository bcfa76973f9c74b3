-- ===== src/Queries/Wire.antt =====
-- The first byte of a message (types/src/message.rs), a buffer of fixed size that an encoder fills
-- from the start, and the filters of a query (`should_process_query` of core/src/serf/query.rs).
use ruserf.Prelude.{
  All, ap, inl, inr, Option-cases, ℕ, ◌-◌, ◌≡◌, ◌↔◌, arith, ◌==◌, nat_eq, list_eq, Bool, true,
  false, Option, none, some, List, [], ◌∷◌, ◌++◌, Eq, length, replicate, contains, lookup,
  if◌then◌else◌,
}
use ruserf.Types.{Bytes, MessageType}
use ruserf.Serf.{Serf, Codec, Filter}

-- `MessageType as u8`.
abbrev pub type_byte : MessageType → ℕ
type_byte MessageType.leave = 0
type_byte MessageType.join = 1
type_byte MessageType.push_pull = 2
type_byte MessageType.user_event = 3
type_byte MessageType.query = 4
type_byte MessageType.query_response = 5
type_byte MessageType.conflict_response = 6
type_byte MessageType.relay = 7
type_byte MessageType.key_request = 253
type_byte MessageType.key_response = 254

-- `MessageType::try_from`; `none` is an unknown byte.
unfoldable pub message_type : ℕ → Option MessageType
message_type b =
    if b == 0
    then some MessageType.leave
    else if b == 1
    then some MessageType.join
    else if b == 2
    then some MessageType.push_pull
    else if b == 3
    then some MessageType.user_event
    else if b == 4
    then some MessageType.query
    else if b == 5
    then some MessageType.query_response
    else if b == 6
    then some MessageType.conflict_response
    else if b == 7
    then some MessageType.relay
    else if b == 253
    then some MessageType.key_request
    else if b == 254
    then some MessageType.key_response
    else none

-- A message type is read back from its byte, and no other byte is read as it.
pub message_type-type_byte :
    (b : ℕ) (ty : MessageType) → (message_type b ≡ some ty) ↔ (b ≡ type_byte ty)
unfolding message_type
message_type-type_byte b MessageType.leave = ground arith
message_type-type_byte b MessageType.join = ground arith
message_type-type_byte b MessageType.push_pull = ground arith
message_type-type_byte b MessageType.user_event = ground arith
message_type-type_byte b MessageType.query = ground arith
message_type-type_byte b MessageType.query_response = ground arith
message_type-type_byte b MessageType.conflict_response = ground arith
message_type-type_byte b MessageType.relay = ground arith
message_type-type_byte b MessageType.key_request = ground arith
message_type-type_byte b MessageType.key_response = ground arith

-- `resize(n, 0)` before the bytes are written over it.
abbrev pub padded : ℕ → Bytes → Bytes
padded n bytes = bytes ++ replicate (n - length bytes) 0

module _ {I A : Type 0} ⦃e : Eq I⦄ (codec : Codec I A) where
  -- One filter of a query.
  unfoldable pub filter_matches : Filter I → Serf I A → Bool
  filter_matches (Filter.id nodes) s = contains s.local_node.id nodes
  filter_matches (Filter.tag tag expr) s = elim s.opts.tags [
    | [] ↦ false
    | _ ∷ _ ↦ elim (lookup tag s.opts.tags) [
      | none ↦ false
      | some value ↦ elim (codec.regex_is_match expr) [
        | none ↦ false
        | some is_match ↦ is_match value
      ]
    ]
  ]

  filter_matches_same :
      (f : Filter I) (s s' : Serf I A)
      → s'.local_node ≡ s.local_node
      → s'.opts ≡ s.opts
      → filter_matches f s' ≡ filter_matches f s
  unfolding filter_matches
  filter_matches_same (Filter.id nodes) s s' node opts = ap (λ n. contains n.id nodes) node
  filter_matches_same (Filter.tag tag expr) s s' node opts = rw opts (ground arith)

  unfoldable pub should_process_query : List Bytes → Serf I A → Bool
  unfolding filter_matches
  should_process_query [] s = true
  should_process_query ([] ∷ filters) s = false
  should_process_query ((b ∷ bytes) ∷ filters) s =
      let rest = should_process_query filters s in
      elim (codec.decode_filter (b ∷ bytes)) [
        | none ↦ false
        | some filter ↦ if filter_matches filter s then rest else false
      ]

  -- Whether `should_process_query` panics on a filter that it comes to.
  unfoldable pub filters_panic : List Bytes → Serf I A → Bool
  unfolding filter_matches
  filters_panic [] s = false
  filters_panic ([] ∷ filters) s = false
  filters_panic ((b ∷ bytes) ∷ filters) s =
      let rest = filters_panic filters s in
      if codec.filter_panics (b ∷ bytes) then true else elim (codec.decode_filter (b ∷ bytes)) [
        | none ↦ false
        | some filter ↦ if filter_matches filter s then rest else false
      ]

  -- A decoder that panics on none of the filters.
  pub filters_panic_none :
      (filters : List Bytes) (s : Serf I A)
      → All (λ b. codec.filter_panics b ≡ false) filters
      → filters_panic filters s ≡ false
  unfolding filters_panic
  filters_panic_none [] s h = ground arith
  filters_panic_none ([] ∷ filters) s h = ground arith
  filters_panic_none ((b ∷ bytes) ∷ filters) s h =
      ground (arith, h.0, filters_panic_none filters s h.1)

  -- The filters look at the local node and the options only.
  pub should_process_query_same :
      (filters : List Bytes) (s s' : Serf I A)
      → s'.local_node ≡ s.local_node
      → s'.opts ≡ s.opts
      → should_process_query filters s' ≡ should_process_query filters s
  unfolding should_process_query filter_matches
  should_process_query_same [] s s' node opts = ground arith
  should_process_query_same ([] ∷ filters) s s' node opts = ground arith
  should_process_query_same ((b ∷ bytes) ∷ filters) s s' node opts =
      let rest = should_process_query_same filters s s' node opts in
      elim (Option-cases (codec.decode_filter (b ∷ bytes))) [
        | inl bad ↦ rw (bad, should_process_query) (ground arith)
        | inr (f, good) ↦
            let same : filter_matches f s' ≡ filter_matches f s =
              filter_matches_same f s s' node opts in
            rw (good, should_process_query, same, rest) (ground arith)
      ]
